-- ===== src/Operation/Once.antt =====
-- operation.hpp: how an operation ends, under every sequence of calls.
use rillnet.Base.{
  ℕ, ◌≡◌, refl, ap, ◌∙◌, subst, sym, ◌⊎◌, inl, inr, List, [], ◌∷◌, ◌++◌, true, false, Option, arith,
}
use rillnet.Lifecycle.{is_operation}
use rillnet.Operation.{Operation, OperationResult, is_terminal, new_operation, call_handler}
use rillnet.Operation.Calls.{
  Call, Fits, apply, apply_all, installed, terminal_state, apply_ended, Open, EndedWith, apply-Step,
  apply-installed, installed-cons,
}

module _ {S : Type 0} where
  -- Once an operation has ended, no sequence of calls changes its state, result, deadline or marks,
  -- or runs its handler again: whatever ends it first wins.
  pub ended_stays :
      (cs : List (Call S)) (o : Operation S) (s : S)
      → is_terminal o ≡ true
      → let (o', s') = apply_all cs o s in
        (o'.state ≡ o.state)
        × (o'.result ≡ o.result)
        × (o'.deadline ≡ o.deadline)
        × (o'.cancellation_requested ≡ o.cancellation_requested)
        × (o'.timed_out ≡ o.timed_out)
        × (s' ≡ s)
  unfolding apply_all
  ended_stays [] o s e = (refl, refl, refl, refl, refl, refl)
  ended_stays (c ∷ cs) o s e = ground (
    arith,
    apply_ended c o s,
    ended_stays cs (apply c o s).0 (apply c o s).1,
    terminal_state (apply c o s).0 o,
  )

  -- One of the calls `cs` on `o` has ended it, and then the handler set last before it ran, once, on
  -- the result that the object now holds.
  pub record EndsOnce (o : Operation S) (s₀ : S) (cs : List (Call S)) (x : Operation S × S)
      : Type 0 where
    pub before : List (Call S)
    pub call : Call S
    pub after : List (Call S)
    pub result : OperationResult
    pub parts : cs ≡ before ++ call ∷ after
    pub open_before : is_terminal (apply_all before o s₀).0 ≡ false
    pub ended_by : is_terminal (apply_all (before ++ call ∷ []) o s₀).0 ≡ true
    pub ended_with : EndedWith (installed o.completion_handler before) result s₀ x

  abbrev pub Settles : Operation S → S → List (Call S) → Operation S × S → Type 0
  Settles o s₀ cs x = Open s₀ x ⊎ EndsOnce o s₀ cs x

  ran_later :
      (c : Call S) (cs : List (Call S)) (o : Operation S) (s s' : S) (r : OperationResult)
      → (apply c o s).1 ≡ s
      → s' ≡ call_handler (installed (apply c o s).0.completion_handler cs) r (apply c o s).1
      → s' ≡ call_handler (installed o.completion_handler (c ∷ cs)) r s
  ran_later c cs o s s' r same ran =
      let kept = ap (λ h. installed h cs) (apply-installed c o s) in
      let last = kept ∙ installed-cons o.completion_handler c cs in
      ran
      ∙ ap (λ h. call_handler h r (apply c o s).1) last
      ∙ ap (call_handler (installed o.completion_handler (c ∷ cs)) r) same

  later_call :
      (c : Call S) (cs : List (Call S)) (o : Operation S) (s : S)
      → Open s (apply c o s)
      → Settles (apply c o s).0 (apply c o s).1 cs (apply_all cs (apply c o s).0 (apply c o s).1)
      → Settles o s (c ∷ cs) (apply_all (c ∷ cs) o s)
  unfolding apply_all
  later_call c cs o s v (inl w) = inl (w.0, w.1, ground (arith, w, v))
  later_call c cs o s v (inr e) = inr (record {
    before = c ∷ e.before;
    call = e.call;
    after = e.after;
    result = e.result;
    parts = ap (λ ds. c ∷ ds) e.parts;
    open_before = e.open_before;
    ended_by = e.ended_by;
    ended_with = (
      e.ended_with.0,
      e.ended_with.1,
      e.ended_with.2,
      ran_later c e.before o s (apply_all cs (apply c o s).0 (apply c o s).1).1 e.result v.2
          e.ended_with.3,
    );
  })

  this_call :
      (c : Call S) (cs : List (Call S)) (o : Operation S) (s : S)
      → is_terminal o ≡ false
      → ((r : OperationResult) × EndedWith o.completion_handler r s (apply c o s))
      → Settles o s (c ∷ cs) (apply_all (c ∷ cs) o s)
  unfolding apply_all installed
  this_call c cs o s v (r, e) =
      let (state, result, d, cr, t, same) = ended_stays cs (apply c o s).0 (apply c o s).1 e.0 in
      inr (record {
        before = [];
        call = c;
        after = cs;
        result = r;
        parts = refl;
        open_before = v;
        ended_by = e.0;
        ended_with = (
          terminal_state (apply_all cs (apply c o s).0 (apply c o s).1).0 (apply c o s).0 state
              ∙ e.0,
          result ∙ e.1,
          subst (λ t. Fits t r.status) (sym state) e.2,
          same ∙ e.3,
        );
      })

  Open-Settles :
      (cs : List (Call S)) (o : Operation S) (s : S)
      → Open s (o, s)
      → Settles o s cs (apply_all cs o s)
  unfolding apply_all
  Open-Settles [] o s v = inl v
  Open-Settles (c ∷ cs) o s v = elim (apply-Step c o s v) [
    | inl w ↦
        later_call c cs o s w (Open-Settles cs (apply c o s).0 (apply c o s).1 (w.0, w.1, refl))
    | inr e ↦ this_call c cs o s v.0 e
  ]

  -- Whatever public methods are called on a new operation, in any order, set_completion_handler
  -- included, one of two things holds. Either it has not ended, it has no result and the state that
  -- handlers write is unchanged; or one call among them ended it, it has a result, whose status
  -- goes with its state, and the state that handlers write is as one run, on that result, of the
  -- completion handler that was set last before that call leaves it (unchanged if there was none).
  pub completes_once :
      (stream : ℕ) (handler : Option (OperationResult → S → S)) (s₀ : S) (cs : List (Call S))
      → let o = new_operation stream handler in Settles o s₀ cs (apply_all cs o s₀)
  unfolding new_operation is_terminal is_operation
  completes_once stream handler s₀ cs =
      Open-Settles cs (new_operation stream handler) s₀ (refl, refl, refl)
