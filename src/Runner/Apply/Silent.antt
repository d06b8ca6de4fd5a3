-- ===== src/Runner/Apply/Silent.antt =====
-- The parts of a script's run between its lines in the audit log.
use ze_db.Prelude.{◌≡◌, refl, ◌∙◌, Bool, true, false, not, ◌&&◌, List, [], ◌∷◌, Option, none, some}
use ze_db.Prelude.Tests.{if◌then◌else◌}
use ze_db.Prelude.Text.{Text}
use ze_db.Runner.Base.{
  RunnerError, server, Result, ok, err, panicked, M, bind, ◌>>=◌, return, Executor, Outside, Reply,
  rows, failed, Sql, script, replica_hosts, Runner,
}
use ze_db.Runner.Route.{is_system}
use ze_db.Runner.Tracking.{S, replied, query, system_executors, hosts_of}
use ze_db.Runner.Apply.{
  reached, attempt, run_replicas, run_system, executors_for, Cache, run_statement,
}

-- An error that a server answered, handed on.
abbrev pub IsServer : RunnerError → Type 0
IsServer e = (text : Text) × (e ≡ server text)

module _ (o : Outside) (r : Runner) where
  -- The audit log is as it was in `s`, the process did not stop, and an error is a server's.
  abbrev pub Quiet : {A : Type 0} → S o r → Result A × S o r → Type 0
  Quiet s (ok a, t) = t.audited ≡ s.audited
  Quiet s (err e, t) = (t.audited ≡ s.audited) × IsServer e
  Quiet s (panicked, t) = ⊥

  abbrev pub Silent : {A : Type 0} → M (S o r) A → Type 0
  Silent m = (s : S o r) → Quiet s (m s)

  Quiet-trans :
      {A : Type 0} (s t : S o r) (x : Result A × S o r)
      → t.audited ≡ s.audited
      → Quiet t x
      → Quiet s x
  Quiet-trans s t (ok a, u) h k = k ∙ h
  Quiet-trans s t (err e, u) h k = (k.0 ∙ h, k.1)
  Quiet-trans s t (panicked, u) h k = k

  bind-Quiet :
      {A B : Type 0} (s : S o r) (x : Result A × S o r) (f : A → M (S o r) B)
      → Quiet s x
      → ((a : A) → Silent (f a))
      → Quiet s (bind x f)
  bind-Quiet s (ok a, t) f h k = Quiet-trans s t (f a t) h (k a t)
  bind-Quiet s (err e, t) f h k = h
  bind-Quiet s (panicked, t) f h k = h

  >>=-Silent :
      {A B : Type 0} (m : M (S o r) A) (f : A → M (S o r) B)
      → Silent m
      → ((a : A) → Silent (f a))
      → Silent (m >>= f)
  >>=-Silent m f h k s = bind-Quiet s (m s) f (h s) k

  reached-Quiet : (s : S o r) (x : Option Text × o.World) → Quiet s (reached o r s x)
  reached-Quiet s (answer, w) = refl

  attempt-Silent : (e : Executor) (sql : Text) → Silent (attempt o r e sql)
  unfolding attempt
  attempt-Silent e sql s = reached-Quiet s (o.execute e (script sql) s.world)

  -- What the loop over the replicas does with an answer.
  on_answer-Silent :
      (m : M (S o r) (Option Text)) (answer : Option Text)
      → Silent m
      → Silent (elim answer [ none ↦ m | some text ↦ return (some text) ])
  on_answer-Silent m none h = h
  on_answer-Silent m (some text) h = λ s. refl

  run_replicas-Silent : (sql : Text) (es : List Executor) → Silent (run_replicas o r sql es)
  unfolding run_replicas
  run_replicas-Silent sql [] = λ s. refl
  run_replicas-Silent sql (e ∷ es) =
      >>=-Silent (attempt o r e sql) _ (attempt-Silent e sql)
        (λ answer. on_answer-Silent (run_replicas o r sql es) answer (run_replicas-Silent sql es))

  run_system-Silent :
      (e : Executor) (sql : Text) (es : List Executor) → Silent (run_system o r e sql es)
  unfolding run_system
  run_system-Silent e sql [] = attempt-Silent e sql
  run_system-Silent e sql (x ∷ es) = run_replicas-Silent sql (x ∷ es)

  replied-Quiet : (s : S o r) (x : Reply) → Quiet s (replied x, s)
  replied-Quiet s (rows xs) = refl
  replied-Quiet s (failed text) = (refl, (text, refl))

  query-Silent : (sql : Sql) → Silent (query o r sql)
  unfolding query
  query-Silent sql s = replied-Quiet s (o.query sql s.world)

  hosts-Silent : (cluster : Option Text) → Silent (hosts_of o r cluster)
  hosts-Silent none = λ s. refl
  hosts-Silent (some cluster) =
      >>=-Silent (query o r (replica_hosts cluster)) _ (query-Silent _) (λ xs s. refl)

  executors-Silent : (routed : Bool) (cache : Cache o r) → Silent (executors_for o r routed cache)
  unfolding system_executors
  executors-Silent routed (some es) = λ s. refl
  executors-Silent routed none =
      >>=-Silent (hosts_of o r r.options.cluster) _ (hosts-Silent r.options.cluster) (λ xs s. refl)

  if-Silent :
      {A : Type 0} (b : Bool) (m k : M (S o r) A)
      → Silent m
      → Silent k
      → Silent (if b then m else k)
  if-Silent true m k h j = h
  if-Silent false m k h j = j

  pub run_statement-Silent :
      (statement : Text) (cache : Cache o r) → Silent (run_statement o r statement cache)
  unfolding run_statement
  run_statement-Silent statement cache =
      if-Silent (is_system statement && not r.options.no_cluster) _ _
        (>>=-Silent (executors_for o r _ cache) _ (executors-Silent _ cache)
          λ es. >>=-Silent (run_system o r _ _ es) _ (run_system-Silent _ _ es) (λ answer s. refl))
        (>>=-Silent (attempt o r _ _) _ (attempt-Silent _ _) (λ answer s. refl))
