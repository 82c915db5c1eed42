-- ===== src/Kernel/Results.antt =====
-- scr/kernel.py: what `run` and `resume` can return.
use selfconnect_runtime.Base.{
  ℕ, zero, suc, ◌+◌, ◌≤◌, String, ◌≡◌, refl, ◌≢◌, Bool, true, false, Option, none, some, List, [],
  ◌∷◌, arith, if◌then◌else◌, string_eq,
}
use selfconnect_runtime.Gateway.{ModelResponse}
use selfconnect_runtime.State.{
  StopReason, max_iterations, completed, awaiting_approval, loop_detected, budget, wall_clock,
  cancelled, model_error, resume_noop,
}
use selfconnect_runtime.Kernel.Env.{Kernel, Failure, Outcome, returned, raised, RunResult}
use selfconnect_runtime.Kernel.Monad.{World, K, ◌>>=◌, pure, from_option, from_list, from_outcome}
use selfconnect_runtime.Kernel.Loop.{
  Step, done, again, from_step, stop, stopping, result_of, paused_at, completed_with, complete_run,
  finish, act, answered, ask, iterate, loop_from, loop, run, resume,
}

-- The action returns a value in `Q`.
pub record Gives {W A : Type 0} (Q : A → Type 0) (m : K W A) : Type 0 where
  pub value : (w : World W) → Q (m w).0

module _ {W A : Type 0} (Q : A → Type 0) where
  Gives-pure : (a : A) → Q a → Gives {W = W} Q (pure a)
  unfolding pure
  Gives-pure a q = record { value = λ w. q }

  Gives-bind :
      {B : Type 0} (m : K W B) (f : B → K W A) → ((b : B) → Gives Q (f b)) → Gives Q (m >>= f)
  unfolding ◌>>=◌
  Gives-bind m f q = record { value = λ w. let (b, w') = m w in (q b).value w' }

  Gives-if : (b : Bool) (m n : K W A) → Gives Q m → Gives Q n → Gives Q (if b then m else n)
  Gives-if true m n p q = p
  Gives-if false m n p q = q

  Gives-from_option :
      {X : Type 0} (o : Option X) (n : K W A) (f : X → K W A)
      → Gives Q n
      → ((x : X) → Gives Q (f x))
      → Gives Q (from_option o n f)
  Gives-from_option none n f p q = p
  Gives-from_option (some x) n f p q = q x

  Gives-from_outcome :
      {X : Type 0} (o : Outcome X) (n : Failure → K W A) (f : X → K W A)
      → ((e : Failure) → Gives Q (n e))
      → ((x : X) → Gives Q (f x))
      → Gives Q (from_outcome o n f)
  Gives-from_outcome (raised e) n f p q = p e
  Gives-from_outcome (returned x) n f p q = q x

  Gives-from_list :
      {X : Type 0} (xs : List X) (n : K W A) (f : X → List X → K W A)
      → Gives Q n
      → ((x : X) (rest : List X) → Gives Q (f x rest))
      → Gives Q (from_list xs n f)
  Gives-from_list [] n f p q = p
  Gives-from_list (x ∷ rest) n f p q = q x rest

-- After a bind whose first action gives values in `R`.
Gives-after :
    {W A B : Type 0} (R : B → Type 0) (Q : A → Type 0) (m : K W B) (f : B → K W A)
    → Gives R m
    → ((b : B) → R b → Gives Q (f b))
    → Gives Q (m >>= f)
unfolding ◌>>=◌
Gives-after R Q m f p q = record { value = λ w. let (b, w') = m w in (q b (p.value w)).value w' }

ruleset gives_rules =
    (Gives-pure, Gives-bind, Gives-if, Gives-from_option, Gives-from_outcome, Gives-from_list)

-- A result of this session, after at most `most` iterations, with a pending approval exactly when the
-- run waits for one, and a text only when it is complete.
pub record IsResult (session : String) (most : ℕ) (r : RunResult) : Type 0 where
  pub own : r.session_id ≡ session
  pub bounded : r.iterations ≤ most
  pub waiting : (id : String) → r.pending_approval ≡ some id → r.stopped_reason ≡ awaiting_approval
  pub named : r.stopped_reason ≡ awaiting_approval → r.pending_approval ≢ none
  pub silent : r.stopped_reason ≢ completed → r.final_text ≡ ""

abbrev pub IsStep : String → ℕ → Step → Type 0
IsStep session most (done r) = IsResult session most r
IsStep session most (again history) = Unit

module _ {W : Type 0} (k : Kernel W) (session : String) where
  result_of-IsResult :
      (most iteration : ℕ) (reason : StopReason)
      → iteration ≤ most
      → reason ≢ awaiting_approval
      → IsResult session most (result_of k session iteration reason)
  result_of-IsResult most iteration reason le ne = record {
    own = refl;
    bounded = le;
    waiting = λ id e. ground (arith, e);
    named = λ e. ground (arith, ne e);
    silent = λ e. refl;
  }

  paused_at-IsResult :
      (most iteration : ℕ) (id : String)
      → iteration ≤ most
      → IsResult session most (paused_at k session iteration id)
  paused_at-IsResult most iteration id le = record {
    own = refl;
    bounded = le;
    waiting = λ other e. refl;
    named = λ e n. ground (arith, n);
    silent = λ e. refl;
  }

  completed_with-IsResult :
      (most iteration : ℕ) (text : String)
      → iteration ≤ most
      → IsResult session most (completed_with k session iteration text)
  completed_with-IsResult most iteration text le = record {
    own = refl;
    bounded = le;
    waiting = λ other e. ground (arith, e);
    named = λ e. ground (arith, e);
    silent = λ e. ground (arith, e refl);
  }

  Gives-stop :
      (most iteration : ℕ) (reason : StopReason)
      → iteration ≤ most
      → reason ≢ awaiting_approval
      → Gives (IsResult session most) (stop k session iteration reason)
  unfolding stop
  Gives-stop most iteration reason le ne =
      let given = result_of-IsResult most iteration reason le ne in search gives_rules depth 12

  Gives-stopping :
      (most iteration : ℕ) (reason : StopReason)
      → iteration ≤ most
      → reason ≢ awaiting_approval
      → Gives (IsStep session most) (stopping k session iteration reason)
  unfolding stopping
  Gives-stopping most iteration reason le ne =
      Gives-after (IsResult session most) (IsStep session most) (stop k session iteration reason) _
        (Gives-stop most iteration reason le ne)
        (λ r q. Gives-pure (IsStep session most) (done r) q)

  Gives-finish :
      (most iteration : ℕ) (history : List String) (response : ModelResponse)
      → iteration ≤ most
      → Gives (IsStep session most) (finish k session iteration history response)
  unfolding finish complete_run
  Gives-finish most iteration history response le =
      let given = completed_with-IsResult most iteration response.text le in
      search gives_rules depth 14

  Gives-act :
      (most iteration : ℕ) (history : List String) (response : ModelResponse)
      → iteration ≤ most
      → Gives (IsStep session most) (act k session iteration history response)
  unfolding act
  Gives-act most iteration history response le =
      let given = λ (id : String). paused_at-IsResult most iteration id le in
      let stops = Gives-stopping most iteration loop_detected le (λ e. ground (arith, e)) in
      search gives_rules depth 14

  Gives-answered :
      (most iteration : ℕ) (history : List String) (seq : ℕ) (response : ModelResponse)
      → iteration ≤ most
      → Gives (IsStep session most) (answered k session iteration history seq response)
  unfolding answered
  Gives-answered most iteration history seq response le =
      let stops = Gives-stopping most iteration budget le (λ e. ground (arith, e)) in
      search (gives_rules, Gives-finish, Gives-act) depth 14

  Gives-iterate :
      (most start iteration : ℕ) (history : List String)
      → iteration ≤ most
      → Gives (IsStep session most) (iterate k session start iteration history)
  unfolding iterate ask
  Gives-iterate most start iteration history le =
      let broke = Gives-stopping most iteration budget le (λ e. ground (arith, e)) in
      let late = Gives-stopping most iteration wall_clock le (λ e. ground (arith, e)) in
      let halted = Gives-stopping most iteration cancelled le (λ e. ground (arith, e)) in
      let failed = Gives-stopping most iteration model_error le (λ e. ground (arith, e)) in
      search (gives_rules, Gives-answered) depth 14

  Gives-from_step :
      (most : ℕ) (step : Step) (g : List String → K W RunResult)
      → IsStep session most step
      → ((h : List String) → Gives (IsResult session most) (g h))
      → Gives (IsResult session most) (from_step step (λ r. pure r) g)
  Gives-from_step most (done r) g p q = Gives-pure (IsResult session most) r p
  Gives-from_step most (again h) g p q = q h

  abbrev Bounded : K W RunResult → Type 0
  Bounded = Gives (IsResult session k.guards.max_iterations)

  Gives-loop_from :
      (left start iteration : ℕ) (history : List String)
      → iteration + left ≤ k.guards.max_iterations + 1
      → Bounded (loop_from k session left start iteration history)
  unfolding loop_from
  Gives-loop_from zero start iteration history le =
      Gives-stop k.guards.max_iterations k.guards.max_iterations max_iterations (omega arith)
        (λ e. ground (arith, e))
  Gives-loop_from (suc left) start iteration history le =
      let most = k.guards.max_iterations in
      Gives-after (IsStep session most) (IsResult session most)
        (iterate k session start iteration history) _
        (Gives-iterate most start iteration history (omega arith))
        (λ step q.
          Gives-from_step most step _ q
            (λ h. Gives-loop_from left start (iteration + 1) h (omega arith)))

  Gives-loop : Bounded (loop k session)
  unfolding loop
  Gives-loop =
      Gives-bind _ _ _ (λ start. Gives-loop_from k.guards.max_iterations start 1 [] (omega arith))

  Gives-run : (text : String) → Bounded (run k session text)
  unfolding run
  Gives-run text = search (gives_rules, Gives-loop) depth 12

  Gives-resume : Bounded (resume k session)
  unfolding resume
  Gives-resume =
      let noop =
        result_of-IsResult k.guards.max_iterations 0 resume_noop (omega arith)
          (λ e. ground (arith, e)) in
      let paused = λ (id : String). paused_at-IsResult k.guards.max_iterations 0 id (omega arith) in
      search (gives_rules, Gives-loop) depth 12

  -- Whatever the model answers, a run and a resumed run return the result of their own session, after
  -- at most `max_iterations` iterations; it names a pending approval exactly when it waits for one,
  -- and only a completed run has a final text.
  pub run-IsResult :
      (text : String) (w : World W)
      → IsResult session k.guards.max_iterations (run k session text w).0
        × IsResult session k.guards.max_iterations (resume k session w).0
  run-IsResult text w = ((Gives-run text).value w, Gives-resume.value w)
