-- ===== src/Repair/Rollback/Names.antt =====
-- The renames of a repair, reversed by its rollback.
use win_profile.Base.{
  ◌≡◌, ◌≢◌, refl, Bool, true, false, List, [], ◌∷◌, none, Result, ok, err, Text, arith,
  if◌then◌else◌,
}
use win_profile.Platform.Wide.{to_wide_null}
use win_profile.Platform.Registry.Api.{Win32Registry, error_success, RegistryError}
use win_profile.Platform.Registry.Keys.{rename_subkey}
use win_profile.Platform.Registry.View.{
  View, is_plain, SameNames, ReadsFaithfully, RenamesFaithfully,
}
use win_profile.Repair.Env.{Services}
use win_profile.Repair.Rollback.{after_rename, after_inspection}

module _ {R : Win32Registry} (W : View R) (F : ReadsFaithfully W) (N : RenamesFaithfully W) where
  open W use {Key, key_of, child, value, same}

  -- `t` holds the names of `s` after a rename.
  pub record IsRename (k : Key) (old new : Text) (s t : R.State) : Type 0 where
    pub old_plain : is_plain old ≡ true
    pub new_plain : is_plain new ≡ true
    pub old_there : child s k old ≢ none
    pub new_free : child s k new ≡ none
    pub moved :
        (n : Text)
        → is_plain n ≡ true
        → child t k n
          ≡ (if same n new then child s k old else if same n old then none else child s k n)

  pub rename_subkey-ok :
      (h : R.Hkey) (old new : Text) (s : R.State) (u : Unit {0})
      → is_plain old ≡ true
      → is_plain new ≡ true
      → (rename_subkey R h old new s).0 ≡ ok u
      → IsRename (key_of h) old new s (rename_subkey R h old new s).1
  unfolding rename_subkey
  rename_subkey-ok h old new s u old_plain new_plain e =
      let done : (R.reg_rename_key h (to_wide_null old) (to_wide_null new) s).0 ≡ error_success =
        ground arith in
      record {
        old_plain = old_plain;
        new_plain = new_plain;
        old_there = (N.rename_found h old new s old_plain new_plain done).0;
        new_free = (N.rename_found h old new s old_plain new_plain done).1;
        moved = N.rename_children h old new s old_plain new_plain done;
      }

  pub rename_subkey-err :
      (h : R.Hkey) (old new : Text) (s : R.State) (x : RegistryError)
      → (rename_subkey R h old new s).0 ≡ err x
      → SameNames W (key_of h) s (rename_subkey R h old new s).1
  unfolding rename_subkey
  rename_subkey-err h old new s x e = record {
    names = λ n plain. N.rename_failed h old new s (λ done. ground arith) n;
  }

  -- A rename, and the rename back.
  back :
      (k : Key) (old new : Text) (s t u v : R.State)
      → IsRename k old new s t
      → SameNames W k t u
      → IsRename k new old u v
      → SameNames W k s v
  back k old new s t u v there stays again = record {
    names = λ n plain. ground (
      arith,
      again.moved n plain,
      stays.names n plain,
      stays.names new there.new_plain,
      there.moved n plain,
      there.moved new there.new_plain,
      there.new_free,
      N.same_refl new,
      N.same_child s k n old,
      N.same_child s k n new,
    );
  }

  module _ (V : Services R.State) where
    after_rename-restores :
        (k : Key) (label : Text) (errors : List Text) (s : R.State)
        (r : Result RegistryError (Unit {0}) × R.State)
        → ((u : Unit {0}) → r.0 ≡ ok u → SameNames W k s r.1)
        → (after_rename R V label errors r).0 ≡ []
        → (errors ≡ []) × SameNames W k s (after_rename R V label errors r).1
    unfolding after_rename
    after_rename-restores k label errors s (ok u, t) h e = (e, h u refl)
    after_rename-restores k label [] s (err x, t) h e = ground arith
    after_rename-restores k label (y ∷ errors) s (err x, t) h e = ground arith

    -- Undoing a rename without an error restores the names, and there was no error before.
    pub after_inspection-restores :
        (parent : R.Hkey) (old new a b : Text) (errors : List Text) (s t : R.State)
        (r : Result RegistryError Bool × R.State)
        → IsRename (key_of parent) old new s t
        → SameNames W (key_of parent) t r.1
        → (r.0 ≡ ok false → child t (key_of parent) new ≡ none)
        → (after_inspection R V parent new old a b errors r).0 ≡ []
        → (errors ≡ [])
          × SameNames W (key_of parent) s (after_inspection R V parent new old a b errors r).1
    unfolding after_inspection
    after_inspection-restores parent old new a b errors s t (ok true, u) there stays missing e =
        after_rename-restores (key_of parent) a errors s (rename_subkey R parent new old u)
          (λ v done.
            back (key_of parent) old new s t u _ there stays
              (rename_subkey-ok parent new old u v there.new_plain there.old_plain done))
          e
    after_inspection-restores parent old new a b errors s t (ok false, u) there stays missing e =
        ground
          (arith, missing refl, there.moved new there.new_plain, there.old_there, N.same_refl new)
    after_inspection-restores parent old new a b [] s t (err x, u) there stays missing e =
        ground arith
    after_inspection-restores parent old new a b (y ∷ errors) s t (err x, u) there stays missing e =
        ground arith

    after_rename-none :
        (label : Text) (errors : List Text) (r : Result RegistryError (Unit {0}) × R.State)
        → (after_rename R V label errors r).0 ≡ []
        → errors ≡ []
    unfolding after_rename
    after_rename-none label errors (ok u, s) e = e
    after_rename-none label [] (err x, s) e = refl
    after_rename-none label (y ∷ errors) (err x, s) e = ground arith

    pub after_inspection-none :
        (parent : R.Hkey) (from to a b : Text) (errors : List Text)
        (r : Result RegistryError Bool × R.State)
        → (after_inspection R V parent from to a b errors r).0 ≡ []
        → errors ≡ []
    unfolding after_inspection
    after_inspection-none parent from to a b errors (ok true, s) e = after_rename-none a errors _ e
    after_inspection-none parent from to a b errors (ok false, s) e = e
    after_inspection-none parent from to a b [] (err x, s) e = refl
    after_inspection-none parent from to a b (y ∷ errors) (err x, s) e = ground arith
