-- ===== src/Platform/Tokens/Service/Poll.antt =====
-- The wait for the TrustedInstaller service, by its rounds.
use win_profile.Base.{
  ℕ, zero, suc, ◌+◌, ◌≤◌, ◌≡◌, ◌≢◌, inl, inr, ◌∙◌, Option, some, Result, ok, err, none,
  Result-cases, Option-cases, arith,
}
use win_profile.Platform.Tokens.{TokenError}
use win_profile.Platform.Tokens.Service.{
  ServiceStatusProcess, after_query, TrustedInstallerServiceApi, poll, open_and_start,
  ensure_trustedinstaller_service_running_with_api,
}

abbrev pub HasProcess : Result TokenError ℕ → Type 0
HasProcess (ok pid) = pid ≢ 0
HasProcess (err e) = Unit {0}

after_query-HasProcess :
    (n : ℕ) (r : Result ℕ ServiceStatusProcess) (result : Result TokenError ℕ)
    → after_query n r ≡ some result
    → HasProcess result
unfolding after_query
after_query-HasProcess n (err code) (ok pid) h = cc
after_query-HasProcess n (ok status) (ok pid) h = ground arith
after_query-HasProcess n r (err e) h = tt

after_query_last : (r : Result ℕ ServiceStatusProcess) → after_query 0 r ≢ none
unfolding after_query
after_query_last (err code) h = cc
after_query_last (ok status) h = ground arith

module _ {S : Type 0} (api : TrustedInstallerServiceApi S) where
  -- A count of waits: a wait adds one, no other call any.
  pub record Counts (waits : S → ℕ) : Type 0 where
    pub opened : (s : S) → waits (open_and_start api s).1 ≡ waits s
    pub queried : (service : api.Handle) (s : S) → waits (api.query_status service s).1 ≡ waits s
    pub waited : (s : S) → waits (api.wait s) ≡ waits s + 1

  -- How a wait of at most `n` rounds ends.
  pub record Ends (waits : S → ℕ) (n : ℕ) (o : Option (Result TokenError ℕ × S)) (s : S)
      : Type 0 where
    pub result : Result TokenError ℕ
    pub final : S
    pub returned : o ≡ some (result, final)
    pub bounded : waits final ≤ waits s + n
    pub process : HasProcess result

  poll-returned :
      (n : ℕ) (service : api.Handle) (s : S) (result : Result TokenError ℕ)
      → after_query n (api.query_status service s).0 ≡ some result
      → poll api (suc n) service s ≡ some (result, (api.query_status service s).1)
  unfolding poll
  poll-returned n service s result decided = rw (poll, decided)

  poll-waited :
      (n : ℕ) (service : api.Handle) (s : S)
      → after_query n (api.query_status service s).0 ≡ none
      → poll api (suc n) service s ≡ poll api n service (api.wait (api.query_status service s).1)
  unfolding poll
  poll-waited n service s undecided = rw (poll, undecided)

  Ends-returned :
      (waits : S → ℕ)
      → Counts waits
      → (n : ℕ) (service : api.Handle) (s : S) (result : Result TokenError ℕ)
      → after_query n (api.query_status service s).0 ≡ some result
      → Ends waits n (poll api (suc n) service s) s
  Ends-returned waits c n service s result decided = record {
    result = result;
    final = (api.query_status service s).1;
    returned = poll-returned n service s result decided;
    bounded = omega (arith, c.queried service s);
    process = after_query-HasProcess n (api.query_status service s).0 result decided;
  }

  poll-Ends :
      (waits : S → ℕ)
      → Counts waits
      → (n : ℕ) (service : api.Handle) (s : S) → Ends waits n (poll api (suc n) service s) s
  poll-Ends waits c zero service s =
      elim (Option-cases (after_query 0 (api.query_status service s).0)) [
        | inr (result, decided) ↦ Ends-returned waits c 0 service s result decided
        | inl undecided ↦ absurd (after_query_last (api.query_status service s).0 undecided)
      ]
  poll-Ends waits c (suc n) service s =
      elim (Option-cases (after_query (suc n) (api.query_status service s).0)) [
        | inr (result, decided) ↦ Ends-returned waits c (suc n) service s result decided
        | inl undecided ↦
            let t = (api.query_status service s).1 in
            let e = poll-Ends waits c n service (api.wait t) in
            record {
              result = e.result;
              final = e.final;
              returned = poll-waited (suc n) service s undecided ∙ e.returned;
              bounded = omega (arith, e.bounded, c.waited t, c.queried service s);
              process = e.process;
            }
      ]

  -- The start of the service returns, without reaching `unreachable!`, after at most 19 waits, and
  -- a process that it returns is not process zero, for a count that every wait raises by one and no
  -- other call changes.
  pub ensure_trustedinstaller_service_running_with_api-Ends :
      (waits : S → ℕ)
      → Counts waits
      → (s : S) → Ends waits 19 (ensure_trustedinstaller_service_running_with_api api s) s
  unfolding ensure_trustedinstaller_service_running_with_api
  ensure_trustedinstaller_service_running_with_api-Ends waits c s =
      elim (Result-cases (open_and_start api s).0) [
        | inr (e, failed) ↦ record {
          result = err e;
          final = (open_and_start api s).1;
          returned = rw (ensure_trustedinstaller_service_running_with_api, failed);
          bounded = omega (arith, c.opened s);
          process = tt;
        }
        | inl (service, opened) ↦
            let e = poll-Ends waits c 19 service (open_and_start api s).1 in
            record {
              result = e.result;
              final = e.final;
              returned = rw (ensure_trustedinstaller_service_running_with_api, opened) e.returned;
              bounded = omega (arith, e.bounded, c.opened s);
              process = e.process;
            }
      ]
