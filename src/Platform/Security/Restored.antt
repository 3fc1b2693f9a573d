-- ===== src/Platform/Security/Restored.antt =====
-- `PrivilegeGuard`, by the attributes of the privileges.
use win_profile.Base.{
  ℕ, ◌≡◌, ◌≢◌, inl, inr, refl, sym, ap, ◌∙◌, subst, fun_ext, true, false, not, ◌||◌, Bool-cases,
  List, [], ◌∷◌, reverse, reverse-append, Option, none, some, Option-cases, ok, Result-cases, Text,
  ◌==◌, ==_iff, if◌then◌else◌, arith,
}
use win_profile.Platform.Security.{
  SecurityError, win32_error, privilege_not_assigned, PrivilegeState, PrivilegeApi,
  se_privilege_enabled, error_not_all_assigned, PrivilegeGuard, first_error_of, push_previous,
  to_result, restore_states, restore_privileges, give_up, enable_privileges, new_guard,
  restore_guard,
}

-- The attributes of every privilege, with one changed.
abbrev pub with_attributes : (ℕ → ℕ) → PrivilegeState → ℕ → ℕ
with_attributes f p l = if l == p.luid then p.attributes else f l

to_result-none : (o : Option SecurityError) (u : Unit {0}) → to_result o ≡ ok u → o ≡ none
to_result-none none u h = refl
to_result-none (some e) u h = cc

with_same :
    (f : ℕ → ℕ) (p : PrivilegeState) (l : ℕ)
    → (f p.luid == p.attributes) ≡ true
    → with_attributes f p l ≡ f l
with_same f p l same = elim (Bool-cases (l == p.luid)) [
  | inl at ↦
      rw at (sym ((==_iff (f p.luid) p.attributes).0 same) ∙ ap f (sym ((==_iff l p.luid).0 at)))
  | inr away ↦ rw away
]

with_earlier :
    (f : ℕ → ℕ) (p : PrivilegeState) (l : ℕ)
    → with_attributes (with_attributes f p) (record { luid = p.luid; attributes = f p.luid }) l
      ≡ f l
with_earlier f p l = elim (Bool-cases (l == p.luid)) [
  | inl at ↦ rw at (ap f (sym ((==_iff l p.luid).0 at)))
  | inr away ↦ rw away
]

-- Every state put back, one after the other.
abbrev put_back : List PrivilegeState → (ℕ → ℕ) → ℕ → ℕ
put_back [] f = f
put_back (p ∷ states) f = put_back states (with_attributes f p)

module _ {S : Type 0} (api : PrivilegeApi S) where
  -- What adjusting a privilege is documented to do, in terms of the attributes that a state holds:
  -- it sets them and gives the earlier ones if these were others, or it fails and changes nothing.
  pub record Adjusts (attributes : S → ℕ → ℕ) : Type 0 where
    pub opened : (s : S) → attributes (api.open_process_token s).1 ≡ attributes s
    pub done :
        (token : api.Token) (p : PrivilegeState) (s : S)
        → (api.adjust_token_privileges token p s).0.succeeded ≡ true
        → ((api.adjust_token_privileges token p s).0.last_error == error_not_all_assigned) ≡ false
        → (attributes (api.adjust_token_privileges token p s).1 ≡ with_attributes (attributes s) p)
          × ((api.adjust_token_privileges token p s).0.previous ≡ (
              if attributes s p.luid == p.attributes
              then none
              else some record { luid = p.luid; attributes = attributes s p.luid }))
    pub failed :
        (token : api.Token) (p : PrivilegeState) (s : S)
        → (not (api.adjust_token_privileges token p s).0.succeeded
            || (api.adjust_token_privileges token p s).0.last_error == error_not_all_assigned)
          ≡ true
        → attributes (api.adjust_token_privileges token p s).1 ≡ attributes s

  module _ (attributes : S → ℕ → ℕ) (A : Adjusts attributes) where
    first_error-kept :
        (token : api.Token) (states : List PrivilegeState) (e : SecurityError) (s : S)
        → (restore_states api token states (some e) s).0 ≡ some e
    unfolding restore_states
    first_error-kept token [] e s = refl
    first_error-kept token (p ∷ states) e s =
        first_error-kept token states e (api.adjust_token_privileges token p s).1

    restore_states-put_back :
        (token : api.Token) (states : List PrivilegeState) (s : S)
        → (restore_states api token states none s).0 ≡ none
        → attributes (restore_states api token states none s).1 ≡ put_back states (attributes s)
    unfolding restore_states
    restore_states-put_back token [] s h = refl
    restore_states-put_back token (p ∷ states) s h =
        let a = (api.adjust_token_privileges token p s).0 in
        let t = (api.adjust_token_privileges token p s).1 in
        elim (Bool-cases (not a.succeeded || a.last_error == error_not_all_assigned)) [
          | inl bad ↦
              let failed : first_error_of none a ≡ some (win32_error a.last_error) =
                ground (arith, bad) in
              absurd (
                cc (
                  first_error-kept token states (win32_error a.last_error) t,
                  subst (λ o. (restore_states api token states o t).0 ≡ none) failed h,
                ))
          | inr good ↦
              let worked : first_error_of none a ≡ none = ground (arith, good) in
              let done = (A.done token p s (ground (arith, good)) (ground (arith, good))).0 in
              subst
                (λ o.
                  attributes (restore_states api token states o t).1
                  ≡ put_back states (with_attributes (attributes s) p))
                (sym worked)
                (restore_states-put_back token states t
                    (subst (λ o. (restore_states api token states o t).0 ≡ none) worked h)
                  ∙ ap (put_back states) done)
        ]

    restore_privileges-put_back :
        (token : api.Token) (states : List PrivilegeState) (s : S) (u : Unit {0})
        → (restore_privileges api token states s).0 ≡ ok u
        → attributes (restore_privileges api token states s).1
          ≡ put_back (reverse states) (attributes s)
    unfolding restore_privileges
    restore_privileges-put_back token states s u h =
        restore_states-put_back token (reverse states) s (to_result-none _ u h)

    restore_guard-restore_privileges :
        (guard : PrivilegeGuard api.Token) (s : S) (u : Unit {0})
        → (restore_guard api guard s).0 ≡ ok u
        → restore_guard api guard s ≡ restore_privileges api guard.token guard.previous_states s
    unfolding restore_guard
    restore_guard-restore_privileges guard s u h =
        elim (Result-cases (restore_privileges api guard.token guard.previous_states s).0) [
          | inl (v, good) ↦ ground (arith, good)
          | inr (e, bad) ↦ ground (arith, bad)
        ]

    -- The earlier attributes, put back over the new ones, are the earlier ones.
    put_back-previous :
        (f : ℕ → ℕ) (p : PrivilegeState) (states : List PrivilegeState)
        → put_back
            (reverse (
              push_previous states (
                if f p.luid == p.attributes
                then none
                else some record { luid = p.luid; attributes = f p.luid })))
            (with_attributes f p)
          ≡ put_back (reverse states) f
    put_back-previous f p states = elim (Bool-cases (f p.luid == p.attributes)) [
      | inl same ↦ rw same (ap (put_back (reverse states)) (fun_ext (λ l. with_same f p l same)))
      | inr other ↦ rw other (
          ap (λ ps. put_back ps (with_attributes f p)) (reverse-append states _)
          ∙ ap (put_back (reverse states)) (fun_ext (λ l. with_earlier f p l)))
    ]

    give_up-ne_ok :
        (token : api.Token) (states : List PrivilegeState) (error : SecurityError) (s : S)
        (taken : List PrivilegeState)
        → (give_up api token states error s).0 ≢ ok taken
    unfolding give_up
    give_up-ne_ok token states error s taken h =
        elim (Result-cases (restore_privileges api token states s).0) [
          | inl (u, restored) ↦ ground (arith, restored)
          | inr (e, failed) ↦ ground (arith, failed)
        ]

    -- A privilege that is taken, if the whole call ends well.
    record IsTaken (token : api.Token) (name : Text) (names : List Text)
        (states taken : List PrivilegeState) (s : S) : Type 0 where
      luid : ℕ
      good :
          (not
              (api.adjust_token_privileges token
                (record { luid = luid; attributes = se_privilege_enabled })
                s).0.succeeded
            || (api.adjust_token_privileges token
                (record { luid = luid; attributes = se_privilege_enabled })
                s).0.last_error
              == error_not_all_assigned)
          ≡ false
      goes_on :
          enable_privileges api token (name ∷ names) states s
          ≡ enable_privileges api token names
              (push_previous states
                (api.adjust_token_privileges token
                  (record { luid = luid; attributes = se_privilege_enabled })
                  s).0.previous)
              (api.adjust_token_privileges token
                (record { luid = luid; attributes = se_privilege_enabled })
                s).1

    enable_privileges-IsTaken :
        (token : api.Token) (name : Text) (names : List Text) (states taken : List PrivilegeState)
        (s : S)
        → (enable_privileges api token (name ∷ names) states s).0 ≡ ok taken
        → IsTaken token name names states taken s
    unfolding enable_privileges
    enable_privileges-IsTaken token name names states taken s h =
        elim (Option-cases (api.lookup_privilege_value name)) [
          | inl absent ↦ absurd (
              give_up-ne_ok token states (privilege_not_assigned name) s taken
                (ground (arith, absent)))
          | inr (luid, found) ↦
              let a =
                api.adjust_token_privileges token
                  (record { luid = luid; attributes = se_privilege_enabled }) s in
              elim (Bool-cases a.0.succeeded) [
                | inr failed ↦ absurd (
                    give_up-ne_ok token states (win32_error a.0.last_error) a.1 taken
                      (ground (arith, found, failed)))
                | inl worked ↦ elim (Bool-cases (a.0.last_error == error_not_all_assigned)) [
                  | inl missing ↦ absurd (
                      give_up-ne_ok token states (privilege_not_assigned name) a.1 taken
                        (ground (arith, found, worked, missing)))
                  | inr assigned ↦ record {
                    luid = luid;
                    good = ground (arith, worked, assigned);
                    goes_on = ground (arith, found, worked, assigned);
                  }
                ]
              ]
        ]

    enable_privileges-put_back :
        (token : api.Token) (names : List Text) (states taken : List PrivilegeState) (s : S)
        → (enable_privileges api token names states s).0 ≡ ok taken
        → put_back (reverse taken) (attributes (enable_privileges api token names states s).1)
          ≡ put_back (reverse states) (attributes s)
    unfolding enable_privileges
    enable_privileges-put_back token [] states taken s e =
        let same : states ≡ taken = cc in ap (λ ps. put_back (reverse ps) (attributes s)) (sym same)
    enable_privileges-put_back token (name ∷ names) states taken s e =
        let k = enable_privileges-IsTaken token name names states taken s e in
        let p : PrivilegeState = record { luid = k.luid; attributes = se_privilege_enabled } in
        let a = api.adjust_token_privileges token p s in
        let (changed, previous) =
          A.done token p s (ground (arith, k.good)) (ground (arith, k.good)) in
        let later =
          enable_privileges-put_back token names (push_previous states a.0.previous) taken a.1
            (sym (ap (λ r. r.0) k.goes_on) ∙ e) in
        ap (λ r. put_back (reverse taken) (attributes r.1)) k.goes_on
        ∙ (later
            ∙ (subst
                  (λ f.
                    put_back (reverse (push_previous states a.0.previous)) f
                    ≡ put_back
                        (reverse (
                          push_previous states (
                            if attributes s k.luid == se_privilege_enabled
                            then none
                            else some record { luid = k.luid; attributes = attributes s k.luid })))
                        (with_attributes (attributes s) p))
                  (sym changed)
                  (ap
                    (λ o.
                      put_back (reverse (push_previous states o))
                        (with_attributes (attributes s) p))
                    previous)
                ∙ put_back-previous (attributes s) p states))

    -- A guard that is made and then restored without an error gives every privilege the attributes
    -- that it had before, provided that adjusting a privilege behaves as documented.
    pub restore_guard-new_guard :
        (names : List Text) (guard : PrivilegeGuard api.Token) (s : S) (u : Unit {0})
        → (new_guard api names s).0 ≡ ok guard
        → (restore_guard api guard (new_guard api names s).1).0 ≡ ok u
        → attributes (restore_guard api guard (new_guard api names s).1).1 ≡ attributes s
    unfolding new_guard
    restore_guard-new_guard names guard s u h r = elim (Result-cases (api.open_process_token s).0) [
      | inr (code, failed) ↦ absurd (ground (arith, failed))
      | inl (token, opened) ↦
          let t = (api.open_process_token s).1 in
          elim (Result-cases (enable_privileges api token names [] t).0) [
            | inr (e, failed) ↦ absurd (ground (arith, opened, failed))
            | inl (states, taken) ↦
                let whole : (new_guard api names s) ≡ (
                  ok record { token = token; previous_states = states },
                  (enable_privileges api token names [] t).1,
                ) =
                  ground (arith, opened, taken) in
                let made : guard ≡ record { token = token; previous_states = states } =
                  ground (arith, opened, taken) in
                let held = enable_privileges-put_back token names [] states t taken in
                let only = restore_guard-restore_privileges guard (new_guard api names s).1 u r in
                ap (λ o. attributes o.1) only
                ∙ (restore_privileges-put_back guard.token guard.previous_states
                      (new_guard api names s).1 u (sym (ap (λ o. o.0) only) ∙ r)
                    ∙ (ap (λ n. put_back (reverse guard.previous_states) (attributes n.1)) whole
                        ∙ (ap
                              (λ g.
                                put_back (reverse g.previous_states)
                                  (attributes (enable_privileges api token names [] t).1))
                              made
                            ∙ (held ∙ A.opened s))))
          ]
    ]
