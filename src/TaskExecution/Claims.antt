-- ===== src/TaskExecution/Claims.antt =====
-- `_finish_execution`: what is claimed, stored and told.
use auto_reign.Prelude.{◌≡◌, refl, ◌⊎◌, inl, inr, Bool, false, some, Text, Bool-cases, Result-cases}
use auto_reign.Json.{Value}
use auto_reign.Reducer.{Python, finish_success}
use auto_reign.Cancellation.{TerminalOutcome, is_some, claim_terminal}
use auto_reign.TaskExecution.World.{PreparedTaskExecution, World, arrive, claim_outcome}
use auto_reign.TaskExecution.Finish.{
  partial_envelope, success_envelope, envelope, persist, end_with, finish_execution,
}
use auto_reign.TaskExecution.Ends.{
  Holds, Holds-bind, Holds-weaken, Going, Silent, Claimed, Broken, arrive-Going,
}
use auto_reign.TaskExecution.Stores.{
  Finished, Unfinished, Stored, Raised, partial_envelope-Holds, Raised-map, Raised-Unfinished,
  early_failure, persist-Holds,
}

module _ (p : PreparedTaskExecution) where
  -- The claim of an execution whose outcome is open.
  claim_outcome-Claimed :
      (begun : Bool) (desired : TerminalOutcome) (w : World)
      → Going begun w
      → Holds
          (λ outcome v. (o : TerminalOutcome) × (outcome ≡ some o) × Claimed o v)
          (Raised Silent)
          (claim_outcome desired w)
  unfolding claim_outcome claim_terminal
  claim_outcome-Claimed begun desired w g =
      let open_ = arrive-Going begun w g in
      let none_yet : is_some (arrive w).state.terminal ≡ false = rw open_.unclaimed refl in
      elim (Bool-cases (arrive w).state.cancel_flag) [
        | inl asked ↦
            rw (none_yet, asked)
              (
                TerminalOutcome.cancelled,
                refl,
                record { sent_open = g.sent_open; terminal = refl; fair = λ h. cc },
              )
        | inr free ↦
            rw (none_yet, free)
              (desired, refl, record { sent_open = g.sent_open; terminal = refl; fair = λ h. refl })
      ]

  broken :
      (w : World) (desired : TerminalOutcome)
      → Holds
          (λ result v. v ≡ w)
          (Raised (λ v. (v ≡ w) × (Broken w ⊎ (desired ≡ TerminalOutcome.completed))))
          (partial_envelope w)
  broken w desired =
      Holds-weaken (λ kept v. v ≡ w) (λ kept v. v ≡ w) (Raised (λ v. (v ≡ w) × Broken w))
        (Raised (λ v. (v ≡ w) × (Broken w ⊎ (desired ≡ TerminalOutcome.completed))))
        (partial_envelope w) (partial_envelope-Holds w) (λ kept v same. same)
        (Raised-map (λ v. (v ≡ w) × Broken w)
          (λ v. (v ≡ w) × (Broken w ⊎ (desired ≡ TerminalOutcome.completed)))
          (λ v h. (h.0, inl h.1)))

  -- The envelope leaves the world as it is; a partial one fails only where it cannot be made.
  pub envelope-Holds :
      (python : Python) (desired : TerminalOutcome) (w : World)
      → Holds
          (λ result v. v ≡ w)
          (Raised (λ v. (v ≡ w) × (Broken w ⊎ (desired ≡ TerminalOutcome.completed))))
          (envelope python desired w)
  unfolding envelope success_envelope
  envelope-Holds python TerminalOutcome.completed w =
      elim (Result-cases (finish_success python w.reducer)) [
        | inl (r, returned) ↦ rw returned refl
        | inr (e, raised) ↦ rw raised (refl, inr refl)
      ]
  envelope-Holds python TerminalOutcome.cancelled w = broken w TerminalOutcome.cancelled
  envelope-Holds python TerminalOutcome.failed w = broken w TerminalOutcome.failed

  end_with-Holds :
      (begun : Bool) (desired outcome : TerminalOutcome) (code : Text) (result : Value) (w : World)
      → Claimed outcome w
      → Holds
          (Finished p)
          (Unfinished begun desired)
          (end_with p desired code result (some outcome) w)
  unfolding end_with
  end_with-Holds begun desired outcome code result w c =
      Holds-bind (Stored p) (Finished p) (Raised Silent) (Unfinished begun desired)
        (persist p desired code result outcome w) _
        (persist-Holds p desired outcome code result w c) (λ payload v stored. stored)
        (Raised-Unfinished begun desired)

  -- From an open outcome: an event to send that tells what is stored, or one of the failures.
  pub finish_execution-Finished :
      (python : Python) (begun : Bool) (desired : TerminalOutcome) (code : Text) (w : World)
      → Going begun w
      → Holds (Finished p) (Unfinished begun desired) (finish_execution python p desired code w)
  unfolding finish_execution
  finish_execution-Finished python begun desired code w g =
      Holds-bind (λ result v. v ≡ w) (Finished p)
        (Raised (λ v. (v ≡ w) × (Broken w ⊎ (desired ≡ TerminalOutcome.completed))))
        (Unfinished begun desired) (envelope python desired w) _ (envelope-Holds python desired w)
        (λ result v same.
          Holds-bind (λ outcome v. (o : TerminalOutcome) × (outcome ≡ some o) × Claimed o v)
            (Finished p) (Raised Silent) (Unfinished begun desired) (claim_outcome desired v) _
            (rw same (claim_outcome-Claimed begun desired w g))
            (λ outcome u claims.
              let (o, is_o, c) = claims in rw is_o (end_with-Holds begun desired o code result u c))
            (Raised-Unfinished begun desired))
        (early_failure begun desired w g)
