-- ===== src/Ledger/Extensions.antt =====
-- scr/ledger.py: a session that goes on after it was sealed.
use selfconnect_runtime.Base.{
  ◌+◌, ◌≤◌, String, ◌≡◌, refl, ap, ◌∙◌, ◌≢◌, Option, some, [], ◌∷◌, arith, string_eq, ==_refl,
  length, length-append, lookup-insert,
}
use selfconnect_runtime.State.{Store, Seal}
use selfconnect_runtime.Ledger.{
  Codec, VerifyResult, append, seal, verify, check_seal, head, ledger_rows, seal_of, seal_mismatch,
}
use selfconnect_runtime.Ledger.Chain.{ReadsBack, ledger_rows-append, appended_row}
use selfconnect_runtime.Ledger.Sealed.{
  Written, appended, closed, Written-IsChained, rows-seal, head-count, seal_row, seal_of-seal,
  check_seal_miscounted, verify-IsChained,
}

module _ {Event : Type 0} (c : Codec Event) (session : String) where
  -- What the runtime may write after the seal: events of any session, and seals of other sessions.
  pub data Later (s : Store) : Store → Type 0 where
    same : Later s s
    appended_any :
        {t : Store} (other : String) (e : Event) → Later s t → Later s (append c t other e).0
    sealed :
        {t : Store} (other key : String)
        → session ≢ other
        → Later s t
        → Later s (seal c t other key).0

  Later-Written : {s t : Store} → Later s t → Written c s → Written c t
  Later-Written same w = w
  Later-Written (appended_any other e l) w = appended other e (Later-Written l w)
  Later-Written (sealed other key ne l) w = closed other key (Later-Written l w)

  seal_of-append :
      (s : Store) (other : String) (e : Event)
      → seal_of (append c s other e).0 session ≡ seal_of s session
  unfolding append seal_of
  seal_of-append s other e = refl

  seal_of-other :
      (s : Store) (other key : String)
      → session ≢ other
      → seal_of (seal c s other key).0 session ≡ seal_of s session
  unfolding seal seal_of
  seal_of-other s other key ne =
      let row : Seal = seal_row c key (head s other).1 (head s other).0 in
      ground (arith, ne, lookup-insert other session row s.seals)

  Later-seal_of : {s t : Store} → Later s t → seal_of t session ≡ seal_of s session
  Later-seal_of same = refl
  Later-seal_of (appended_any {t = t} other e l) = seal_of-append t other e ∙ Later-seal_of l
  Later-seal_of (sealed {t = t} other key ne l) = seal_of-other t other key ne ∙ Later-seal_of l

  length-append_any :
      (s : Store) (other : String) (e : Event)
      → length (ledger_rows s session) ≤ length (ledger_rows (append c s other e).0 session)
  length-append_any s other e = ground (
    arith,
    ledger_rows-append c s other session e,
    length-append (ledger_rows s session) (appended_row c s other e ∷ []),
  )

  length-append_own :
      (s : Store) (e : Event)
      → length (ledger_rows (append c s session e).0 session) ≡ length (ledger_rows s session) + 1
  length-append_own s e = ground (
    arith,
    ledger_rows-append c s session session e,
    ==_refl session,
    length-append (ledger_rows s session) (appended_row c s session e ∷ []),
  )

  Later-length :
      {s t : Store} → Later s t → length (ledger_rows s session) ≤ length (ledger_rows t session)
  Later-length same = omega arith
  Later-length (appended_any {t = t} other e l) =
      omega (arith, Later-length l, length-append_any t other e)
  Later-length (sealed {t = t} other key ne l) =
      omega (arith, Later-length l, ap length (rows-seal c t other key session))

  -- Once a session that the runtime wrote was sealed, `verify` rejects it for its seal, whatever key is
  -- given, as soon as it got one more event, whatever events of this and of other sessions and whatever
  -- seals of other sessions were written before and after that event.
  pub verify-append_after_seal :
      ReadsBack c
      → {s t u : Store} (key : String) (e : Event) (given : Option String) → Written c s
      → Later (seal c s session key).0 t
      → Later (append c t session e).0 u
      → (verify c u session given).error ≡ some seal_mismatch
  verify-append_after_seal back {s} {t} {u} key e given w before after =
      let written =
        Later-Written after (appended session e (Later-Written before (closed session key w))) in
      let row = seal_row c key (head s session).1 (head s session).0 in
      let kept : seal_of u session ≡ some row =
        Later-seal_of after
        ∙ seal_of-append t session e
        ∙ Later-seal_of before
        ∙ seal_of-seal c s session key in
      ap (λ (r : VerifyResult). r.error)
        (verify-IsChained c back u session given (Written-IsChained c written)
          ∙ ap (λ o. check_seal c o given (head u session).1 (head u session).0) kept)
      ∙ check_seal_miscounted c row given (head u session).1 (head u session).0 (λ same_count.
        absurd (
          omega (
            arith,
            same_count,
            head-count c s session (Written-IsChained c w),
            head-count c u session (Written-IsChained c written),
            ap length (rows-seal c s session key session),
            Later-length before,
            length-append_own t e,
            Later-length after,
          )))
