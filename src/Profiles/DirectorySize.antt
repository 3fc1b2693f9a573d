-- ===== src/Profiles/DirectorySize.antt =====
-- `directory_size` of crates/core-profiles/src/scanner.rs over the tree that the file system shows.
pub mod Sum
use win_profile.Base.{
  ℕ, zero, suc, ◌+◌, ◌-◌, ◌^◌, ◌≡◌, ◌≤◌, refl, ◌∙◌, Bool, true, false, List, [], ◌∷◌, ◌++◌, Result,
  ok, err, and_then, Text, codes, ends_with, leb, ◌||◌, ◌&&◌, ◌==◌, is_empty, if◌then◌else◌, arith,
  is_ok, ◌↔◌, ap, sym, subst, Result-cases, inl, inr,
}

-- What `symlink_metadata` and `read_dir` show at a path. A directory that cannot be listed has the
-- error of `read_dir`; an entry of a listing may be an error too.
mutual
  pub data Entry : Type 0 where
    unreadable : Text → Entry
    reparse_point : Entry
    directory : Listing → Entry
    unlistable : Text → Entry
    file : ℕ → Entry
    other : Entry

  pub data Listing : Type 0 where
    end : Listing
    failed : Text → Listing → Listing
    entry : Text → Entry → Listing → Listing

abbrev pub u64_max : ℕ
u64_max = 2 ^ 64 - 1

unfoldable pub saturating_add : ℕ → ℕ → ℕ
saturating_add a b = if leb (a + b) u64_max then a + b else u64_max

is_drive_letter : ℕ → Bool
is_drive_letter c = (leb b'A' c && leb c b'Z') || (leb b'a' c && leb c b'z')

-- A drive without a root, as `C:`.
unfoldable pub is_bare_drive : Text → Bool
unfolding is_drive_letter
is_bare_drive [] = false
is_bare_drive (c ∷ []) = false
is_bare_drive (c ∷ d ∷ []) = is_drive_letter c && d == b':'
is_bare_drive (c ∷ d ∷ e ∷ s) = false

-- `path.join(name)`, for a name that is no path itself.
unfoldable pub join_path : Text → Text → Text
unfolding ends_with is_bare_drive
join_path p name =
    if is_empty p || ends_with p (codes "\\") || ends_with p (codes "/") || is_bare_drive p
    then p ++ name
    else p ++ (codes "\\" ++ name)

-- `format!("{}: {error}", path.display())`
at_path : Text → Text → Text
at_path p error = p ++ (codes ": " ++ error)

-- What a child adds, once its own size is known.
add_child : Text → Result Text ℕ → Entry → ℕ → Result Text ℕ
unfolding saturating_add at_path
add_child p size (unreadable error) total = err (at_path p error)
add_child p size reparse_point total = ok total
add_child p (ok n) (directory _) total = ok (saturating_add total n)
add_child p (err e) (directory _) total = err e
add_child p (ok n) (unlistable _) total = ok (saturating_add total n)
add_child p (err e) (unlistable _) total = err e
add_child p size (file len) total = ok (saturating_add total len)
add_child p size other total = err (codes "unsupported filesystem entry: " ++ p)

-- `not_a_directory` is what `read_dir` says of a path that is no directory.
module _ (not_a_directory : Text) where
  unfoldable mutual
    unfolding at_path add_child join_path

    pub directory_size : Text → Entry → Result Text ℕ
    directory_size root (unreadable error) = err (at_path root error)
    directory_size root reparse_point = err (codes "reparse point refused: " ++ root)
    directory_size root (directory entries) = entries_size root entries 0
    directory_size root (unlistable error) = err (at_path root error)
    directory_size root (file len) = err (at_path root not_a_directory)
    directory_size root other = err (at_path root not_a_directory)

    pub entries_size : Text → Listing → ℕ → Result Text ℕ
    entries_size root end total = ok total
    entries_size root (failed error rest) total = err (at_path root error)
    entries_size root (entry name e rest) total =
        let p = join_path root name in
        and_then (add_child p (directory_size p e) e total)
          (λ total'. entries_size root rest total')
