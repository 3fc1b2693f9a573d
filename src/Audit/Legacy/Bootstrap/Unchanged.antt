-- ===== src/Audit/Legacy/Bootstrap/Unchanged.antt =====
-- What an inspection leaves alone, and where a recovery ends.
use win_profile.Base.{
  ℕ, ◌≡◌, ◌⊎◌, inl, inr, refl, ap, sym, subst, if◌then◌else◌, ◌∙◌, Bool, true, false, List, [], ◌∷◌,
  Option, none, some, Result, ok, err, Result-cases, Program, lift, raise_if, map_err, ◌>>=◌,
  with_error, Text, codes, text_eq, not, ◌||◌, ◌++◌, ◌==◌, arith,
}
use win_profile.Base.Hoare.{Gives, Gives-bind}
use win_profile.Audit.Journal.{StorageError, not_found, collision, other_error}
use win_profile.Audit.Legacy.{audit_pending, state_file_name, MigrationStateRecord}
use win_profile.Audit.Legacy.Calls.{Calls, LegacyStorageError, storage, io, invalid_state}
use win_profile.Audit.Legacy.Transition.{stored, execute_recovery, product_directory}
use win_profile.Audit.Legacy.Recovery.{execute_recovery-fresh, execute_recovery-resumed}
use win_profile.Audit.Legacy.Pending.{
  Groups, add_record, unfinished, load_record, load_groups, load_pending_from_bootstrap,
}
use win_profile.Audit.Legacy.Bootstrap.{
  Roots, bootstrap_directory, pending_under, load_pending_state, inspect_root, inspect_pending,
  inspect_under, keep_lock, open_or_create_bootstrap, recover,
}

-- A program that leaves the state as it is.
record Stays {S E A : Type 0} (m : Program S E A) : Type 0 where
  pub from : (s : S) → (m s).1 ≡ s

Stays-bind :
    {S E A B : Type 0} (m : Program S E A) (f : A → Program S E B)
    → Stays m
    → ((a : A) → Stays (f a))
    → Stays (m >>= f)
Stays-bind m f h k = record {
  from = λ s. elim (Result-cases (m s).0) [
    | inl (a, e) ↦ ground (arith, e, h.from s, (k a).from s)
    | inr (x, e) ↦ ground (arith, e, h.from s)
  ];
}

Stays-raise_if : {S E : Type 0} (b : Bool) (e : E) → Stays (raise_if {W = S} b e)
Stays-raise_if true e = record { from = λ s. refl }
Stays-raise_if false e = record { from = λ s. refl }

Stays-if :
    {S E A : Type 0} (b : Bool) (m n : Program S E A)
    → Stays m
    → Stays n
    → Stays (if b then m else n)
Stays-if true m n h k = h
Stays-if false m n h k = k

bind-stays :
    {S E A B : Type 0} (m : Program S E A) (f : A → Program S E B) (s : S) (a : A)
    → (m s).0 ≡ ok a
    → (m s).1 ≡ s
    → (m >>= f) s ≡ f a s
bind-stays m f s a e same = ground (arith, e, same)

bind-fails :
    {S E A B : Type 0} (m : Program S E A) (f : A → Program S E B) (s : S) (x : E)
    → (m s).0 ≡ err x
    → (m s).1 ≡ s
    → ((m >>= f) s).1 ≡ s
bind-fails m f s x e same = ground (arith, e, same)

module _ {S : Type 0} (C : Calls S) (B : Roots S C.Directory) where
  -- The calls that read change nothing.
  pub record ReadsOnly : Type 0 where
    pub open_child : (name : Text) (s : S) → (B.open_existing_child name s).1 ≡ s
    pub validate : (d : C.Directory) (s : S) → (C.validate_production_root d s).1 ≡ s
    pub list : (s : S) → (C.entries s).1 ≡ s
    pub read : (name : Text) (s : S) → (C.read_bytes name s).1 ≡ s
    pub open_root : (s : S) → (C.open_existing_root s).1 ≡ s
    pub open_identity : (name : Text) (s : S) → (C.open_object_identity name s).1 ≡ s

  module _ (O : ReadsOnly) where
    Stays-load_record : (name : Text) → Stays (load_record C name)
    unfolding load_record
    Stays-load_record name =
        Stays-bind (with_error storage (C.read_bytes name)) _ (record { from = O.read name })
          (λ read.
            Stays-bind (lift (map_err io read)) _ (record { from = λ s. refl })
              (λ bytes.
                Stays-bind
                  (lift
                    (map_err (λ e. invalid_state (name ++ (codes ": " ++ e))) (C.from_json bytes)))
                  _ (record { from = λ s. refl })
                  (λ found.
                    let wrong =
                      not (found.schema == 1) || not (text_eq (state_file_name found) name) in
                    let message =
                      invalid_state (codes "state filename/content mismatch: " ++ name) in
                    Stays-bind (raise_if wrong message) _ (Stays-raise_if wrong message)
                      (λ _. record { from = λ s. refl }))))

    Stays-load_groups :
        (names : List (Option Text)) (groups : Groups) → Stays (load_groups C names groups)
    unfolding load_groups
    Stays-load_groups [] groups = record { from = λ s. refl }
    Stays-load_groups (none ∷ names) groups = Stays-load_groups names groups
    Stays-load_groups (some name ∷ names) groups =
        Stays-if _ (load_groups C names groups)
          (load_record C name >>= λ found. load_groups C names (add_record found groups))
          (Stays-load_groups names groups)
          (Stays-bind (load_record C name) _ (Stays-load_record name)
            (λ found. Stays-load_groups names (add_record found groups)))

    Stays-load_pending_from_bootstrap : Stays (load_pending_from_bootstrap C)
    unfolding load_pending_from_bootstrap
    Stays-load_pending_from_bootstrap =
        Stays-bind (with_error storage C.entries) _ (record { from = O.list })
          (λ names. Stays-bind (load_groups C names []) _ (Stays-load_groups names []) (λ groups.
            Stays-bind (lift (unfinished groups [])) _ (record { from = λ s. refl })
              (λ pending. record { from = λ s. refl })))

    pending_under-stays :
        (r : Result StorageError C.Directory) (s : S) → (pending_under C B (r, s)).1 ≡ s
    unfolding pending_under
    pending_under-stays (ok d) s =
        (Stays-bind (stored C (C.validate_production_root d)) _ (record { from = O.validate d })
            (λ _. Stays-load_pending_from_bootstrap)).from
          s
    pending_under-stays (err not_found) s = refl
    pending_under-stays (err collision) s = refl
    pending_under-stays (err (other_error e)) s = refl

    load_pending_state-stays : (s : S) → (load_pending_state C B s).1 ≡ s
    unfolding load_pending_state
    load_pending_state-stays s =
        let opened = B.open_existing_child bootstrap_directory s in
        pending_under-stays opened.0 opened.1 ∙ O.open_child bootstrap_directory s

    inspect_root-unchanged :
        (r : Result StorageError C.Directory) (s : S)
        → ((inspect_root C B (r, s)).1 ≡ s)
          ⊎ ((r ≡ err not_found) × ((inspect_root C B (r, s)).1 ≡ (B.open_or_create_root s).1))
    unfolding inspect_root
    inspect_root-unchanged (ok root) s = inl refl
    inspect_root-unchanged (err not_found) s = inr (
      refl,
      elim (Result-cases (B.open_or_create_root s).0) [
        | inl (root, e) ↦ ground (arith, e)
        | inr (x, e) ↦ ground (arith, e)
      ],
    )
    inspect_root-unchanged (err collision) s = inl (
        (Stays-bind (stored C (C.open_object_identity product_directory)) _
            (record { from = O.open_identity product_directory })
            (λ identity. record { from = λ t. refl })).from
          s)
    inspect_root-unchanged (err (other_error e)) s = inl (
        (Stays-bind (stored C (C.open_object_identity product_directory)) _
            (record { from = O.open_identity product_directory })
            (λ identity. record { from = λ t. refl })).from
          s)

    inspect_pending-unchanged :
        (pending : Option MigrationStateRecord) (s : S)
        → ((inspect_pending C B pending s).1 ≡ s)
          ⊎ (((C.open_existing_root s).0 ≡ err not_found)
              × ((inspect_pending C B pending s).1 ≡ (B.open_or_create_root s).1))
    unfolding inspect_pending
    inspect_pending-unchanged none s =
        elim (inspect_root-unchanged (C.open_existing_root s).0 (C.open_existing_root s).1) [
          | inl same ↦ inl (same ∙ O.open_root s)
          | inr (absent, created) ↦
              inr (absent, created ∙ ap (λ t. (B.open_or_create_root t).1) (O.open_root s))
        ]
    inspect_pending-unchanged (some pending) s = inl refl

    -- An inspection changes nothing, unless there is no root; then it does nothing but create it.
    pub inspect_under-unchanged :
        (s : S)
        → ((inspect_under C B s).1 ≡ s)
          ⊎ (((C.open_existing_root s).0 ≡ err not_found)
              × ((inspect_under C B s).1 ≡ (B.open_or_create_root s).1))
    unfolding inspect_under
    inspect_under-unchanged s = elim (Result-cases (load_pending_state C B s).0) [
      | inr (e, failed) ↦ inl (
          bind-fails (load_pending_state C B) (inspect_pending C B) s e failed
            (load_pending_state-stays s))
      | inl (pending, loaded) ↦
          subst
            (λ r.
              (r.1 ≡ s)
              ⊎ (((C.open_existing_root s).0 ≡ err not_found)
                  × (r.1 ≡ (B.open_or_create_root s).1)))
            (sym (
              bind-stays (load_pending_state C B) (inspect_pending C B) s pending loaded
                (load_pending_state-stays s)))
            (inspect_pending-unchanged pending s)
    ]

  abbrev AtAudit : MigrationStateRecord → Type 0
  AtAudit state = state.phase ≡ audit_pending

  keep_lock-ok :
      (r : Result LegacyStorageError MigrationStateRecord) (s : S) (state : MigrationStateRecord)
      → (keep_lock C B (r, s)).0 ≡ ok state
      → r ≡ ok state
  unfolding keep_lock
  keep_lock-ok (ok found) s state h = h
  keep_lock-ok (err e) s state h = cc

  Gives-execute_recovery :
      (existing : Option MigrationStateRecord) (detected : ℕ)
      → Gives AtAudit (execute_recovery C existing detected)
  Gives-execute_recovery none detected = record {
    holds = λ s a h. (execute_recovery-fresh C detected s a h).0;
  }
  Gives-execute_recovery (some found) detected = record {
    holds = λ s a h. ap (λ r. r.phase) (execute_recovery-resumed C found detected s a h).0;
  }

  -- A recovery that returns a record without an error ends at the audit.
  pub recover-audit_pending :
      (detected : ℕ) (s : S) (state : MigrationStateRecord)
      → (recover C B detected s).0 ≡ ok state
      → state.phase ≡ audit_pending
  unfolding recover
  recover-audit_pending detected s state e =
      (Gives-bind AtAudit (open_or_create_bootstrap C B) _ (λ _ _ _.
          Gives-bind AtAudit (stored C B.acquire_bootstrap_lock) _ (λ _ _ _. record {
            holds = λ t a h.
                (Gives-bind AtAudit (load_pending_from_bootstrap C)
                    (λ existing. execute_recovery C existing detected)
                    (λ existing _ _. Gives-execute_recovery existing detected)).holds
                  t a (keep_lock-ok _ _ a h);
          }))).holds
        s state e
