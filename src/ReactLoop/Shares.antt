-- ===== src/ReactLoop/Shares.antt =====
-- The tokens of the results of one turn's calls (react_loop.py).
use auto_reign.Prelude.{
  ℕ, suc, ◌+◌, ◌*◌, ◌≤◌, ◌≡◌, refl, sym, subst, ap, ◌⊎◌, inl, inr, Option, none, some, List, [],
  ◌∷◌, map, Result, ok, ◌>>=◌, leb, leb→le, length, arith, Bool-cases, Result-cases,
}
use native.Mathlib.Nat.{mul-div-le}
use auto_reign.RuntimeTypes.{ToolCall, ToolResult}
use auto_reign.ReactLoop.Chunks.{LoopError}
use auto_reign.ReactLoop.Budget.{
  TokenCounter, terminal_budget_audit, total, remaining_tokens, share, result_tokens, fit_result,
  ToolOutput, message, other_output, or_terminal, fit_output, execute_with_budget,
}

-- A call with the tool of its name.
abbrev pub Run : Type 0
Run = ToolCall × (ℕ → Result LoopError ToolOutput)

abbrev pub calls_of : List Run → List ToolCall
calls_of [] = []
calls_of ((call, execute) ∷ runs) = call ∷ calls_of runs

one_more : (a b n s : ℕ) → a ≤ s → b ≤ n * s → a + b ≤ suc n * s
one_more a b n s h k = omega arith

module _ (counter : TokenCounter) where
  -- The tokens of what a call has put into the state; an output that is no ToolMessage has no result.
  abbrev pub output_tokens : ToolOutput → ℕ
  output_tokens (message (some result)) = result_tokens counter result
  output_tokens _ = 0

  -- The runs of a turn, each for itself; none of them sees another's result.
  abbrev pub run_all : ℕ → List ToolCall → List Run → Result LoopError (List ToolOutput)
  run_all token_budget siblings [] = ok []
  run_all token_budget siblings ((call, execute) ∷ runs) =
      execute_with_budget counter token_budget siblings call (some execute)
        (terminal_budget_audit call)
      >>= λ result. run_all token_budget siblings runs >>= λ results. ok (result ∷ results)

  -- A result that ends the turn.
  abbrev pub EndsTurn : List Run → List ToolOutput → Type 0
  EndsTurn ((call, execute) ∷ runs) (result ∷ results) =
      (result ≡ message (some (terminal_budget_audit call))) ⊎ EndsTurn runs results
  EndsTurn _ _ = ⊥

  fit_result-fits :
      (call : ToolCall) (candidate result : ToolResult) (remaining : ℕ)
      → fit_result counter call candidate remaining ≡ some result
      → result_tokens counter result ≤ remaining
  unfolding fit_result
  fit_result-fits call candidate result remaining h =
      ground (arith, leb→le (result_tokens counter result) remaining)

  or_terminal-fits :
      (call : ToolCall) (fitted : Option ToolResult) (remaining : ℕ)
      → ((result : ToolResult) → fitted ≡ some result → result_tokens counter result ≤ remaining)
      → (or_terminal call fitted ≡ terminal_budget_audit call)
        ⊎ (result_tokens counter (or_terminal call fitted) ≤ remaining)
  or_terminal-fits call none remaining h = inl refl
  or_terminal-fits call (some result) remaining h = inr (h result refl)

  fit_output-fits :
      (call : ToolCall) (remaining : ℕ) (output result : ToolOutput)
      → fit_output counter call remaining output ≡ ok result
      → (result ≡ message (some (terminal_budget_audit call))) ⊎ (output_tokens result ≤ remaining)
  unfolding fit_output
  fit_output-fits call remaining other_output result h =
      let same : result ≡ other_output = ground arith in rw same (inr (omega arith))
  fit_output-fits call remaining (message none) result h = ground arith
  fit_output-fits call remaining (message (some candidate)) result h =
      let fitted = or_terminal call (fit_result counter call candidate remaining) in
      let same : result ≡ message (some fitted) = ground arith in
      rw same
        (elim (or_terminal-fits call (fit_result counter call candidate remaining) remaining
          (λ r fits. fit_result-fits call candidate r remaining fits)) [
            | inl ends ↦ inl (ap (λ r. message (some r)) ends)
            | inr fits ↦ inr fits
          ])

  execute_with_budget-fits :
      (token_budget : ℕ) (siblings : List ToolCall) (call : ToolCall)
      (execute : ℕ → Result LoopError ToolOutput) (unknown : ToolResult) (result : ToolOutput)
      → execute_with_budget counter token_budget siblings call (some execute) unknown ≡ ok result
      → (result ≡ message (some (terminal_budget_audit call)))
        ⊎ (output_tokens result ≤ share counter token_budget siblings)
  unfolding execute_with_budget
  execute_with_budget-fits token_budget siblings call execute unknown result h =
      let remaining = share counter token_budget siblings in
      elim (Bool-cases (leb remaining 0)) [
        | inl empty ↦ inl (ground arith)
        | inr some_left ↦ elim (Result-cases (execute remaining)) [
          | inr (e, raised) ↦ ground arith
          | inl (output, returned) ↦ fit_output-fits call remaining output result (ground arith)
        ]
      ]

  run_all-fits :
      (token_budget : ℕ) (siblings : List ToolCall) (runs : List Run) (results : List ToolOutput)
      → run_all token_budget siblings runs ≡ ok results
      → EndsTurn runs results
        ⊎ (total (map output_tokens results) ≤ length runs * share counter token_budget siblings)
  run_all-fits token_budget siblings [] results h =
      let empty : results ≡ [] = ground arith in rw empty (inr (omega arith))
  run_all-fits token_budget siblings ((call, execute) ∷ runs) results h =
      elim (Result-cases (
        execute_with_budget counter token_budget siblings call (some execute)
          (terminal_budget_audit call))) [
            | inr (e, raised) ↦ ground arith
            | inl (result, returned) ↦ elim (Result-cases (run_all token_budget siblings runs)) [
              | inr (e, raised) ↦ ground arith
              | inl (rest, returned_rest) ↦
                  let both : results ≡ result ∷ rest = ground arith in
                  rw both
                    (elim (execute_with_budget-fits token_budget siblings call execute
                      (terminal_budget_audit call) result returned) [
                        | inl ends ↦ inl (inl ends)
                        | inr fits ↦
                            elim (run_all-fits token_budget siblings runs rest returned_rest) [
                              | inl ends ↦ inl (inr ends)
                              | inr fit ↦ inr (
                                  one_more _ _ (length runs) (share counter token_budget siblings)
                                    fits fit)
                            ]
                      ])
            ]
          ]

  share-le :
      (token_budget : ℕ) (siblings : List ToolCall)
      → length siblings * share counter token_budget siblings
        ≤ remaining_tokens counter token_budget siblings
  unfolding share
  share-le token_budget siblings =
      mul-div-le (remaining_tokens counter token_budget siblings) (length siblings)

  length-calls_of : (runs : List Run) → length (calls_of runs) ≡ length runs
  length-calls_of [] = refl
  length-calls_of ((call, execute) ∷ runs) = ap suc (length-calls_of runs)

  -- Where the calls of one assistant's message are all run by known tools, and none of their outputs
  -- ends the turn, the results that they return take together no more tokens than the budget leaves after the messages
  -- and the calls themselves, whatever the tools return.
  pub run_all-remaining :
      (token_budget : ℕ) (runs : List Run) (results : List ToolOutput)
      → run_all token_budget (calls_of runs) runs ≡ ok results
      → EndsTurn runs results
        ⊎ (total (map output_tokens results)
            ≤ remaining_tokens counter token_budget (calls_of runs))
  run_all-remaining token_budget runs results h =
      elim (run_all-fits token_budget (calls_of runs) runs results h) [
        | inl ends ↦ inl ends
        | inr fit ↦
            let whole : total (map output_tokens results)
                ≤ length (calls_of runs) * share counter token_budget (calls_of runs) =
              subst
                (λ n.
                  total (map output_tokens results)
                  ≤ n * share counter token_budget (calls_of runs))
                (sym (length-calls_of runs)) fit in
            inr (omega (arith, share-le token_budget (calls_of runs)))
      ]
