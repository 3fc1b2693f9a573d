-- ===== src/Repair/Engine/Keeps.antt =====
-- Relations between the states at the start and the end of a program, and the reads that keep them.
use win_profile.Base.{
  ℕ, Bool, true, false, not, Option, Result, ok, err, Program, pure, continue, ◌>>=◌, with_error,
  raise_if, Bool-cases, inl, inr, ◌&&◌, none, some, Text, if◌then◌else◌, ◌==◌,
}
use win_profile.Audit.Event.{Event}
use win_profile.Platform.Wide.{Wide, to_wide_null}
use win_profile.Platform.Registry.Api.{
  RegistryRoot, Win32Registry, error_success, reg_sz, reg_expand_sz,
}
use win_profile.Platform.Registry.Keys.{open_key_raw, open_key, open_subkey, subkey_exists}
use win_profile.Platform.Registry.Values.{query_value_string, query_value_u32}
use win_profile.Repair.Env.{RepairError, Services}

-- A program ends in a state that stands in a relation to the state that it began in.
pub record Keeps {W E A : Type 0} (Same : W → W → Type 0) (m : Program W E A) : Type 0 where
  pub from : (w : W) → Same w (m w).1

module _ {W : Type 0} (Same : W → W → Type 0) (same_refl : (w : W) → Same w w)
    (same_trans : (u v w : W) → Same u v → Same v w → Same u w) where
  continue-Keeps :
      {E A B : Type 0} (w : W) (r : Result E A × W) (f : A → Program W E B)
      → Same w r.1
      → ((a : A) → Keeps Same (f a))
      → Same w (continue r f).1
  continue-Keeps w (ok a, w') f h hf = same_trans w w' _ h ((hf a).from w')
  continue-Keeps w (err e, w') f h hf = h

  pub Keeps-bind :
      {E A B : Type 0} (m : Program W E A) (f : A → Program W E B)
      → Keeps Same m
      → ((a : A) → Keeps Same (f a))
      → Keeps Same (m >>= f)
  Keeps-bind m f hm hf = record { from = λ w. continue-Keeps w (m w) f (hm.from w) hf }

  raise_if-keeps : {E : Type 0} (b : Bool) (e : E) (w : W) → Same w (raise_if b e w).1
  raise_if-keeps true e w = same_refl w
  raise_if-keeps false e w = same_refl w

  pub Keeps-raise_if : {E : Type 0} (b : Bool) (e : E) → Keeps Same (raise_if b e)
  Keeps-raise_if b e = record { from = raise_if-keeps b e }

  pub Keeps-if :
      {E A : Type 0} (b : Bool) (m n : Program W E A)
      → Keeps Same m
      → Keeps Same n
      → Keeps Same (if b then m else n)
  Keeps-if true m n hm hn = hm
  Keeps-if false m n hm hn = hn

-- The relation between states that reading the registry, inspecting locks and logging keep.
pub record IsFrame (R : Win32Registry) (V : Services R.State) (Same : R.State → R.State → Type 0)
    : Type 0 where
  pub same_refl : (s : R.State) → Same s s
  pub same_trans : (s t u : R.State) → Same s t → Same t u → Same s u
  pub on_open :
      (h : R.Hkey) (w : Wide) (sam : ℕ) (s : R.State) → Same s (R.reg_open_key_ex h w sam s).1
  pub on_query :
      (h : R.Hkey) (w : Wide) (capacity : Option ℕ) (s : R.State)
      → Same s (R.reg_query_value_ex h w capacity s).1
  pub on_inspect : (p : Text) (s : R.State) → Same s (V.inspect p s).1
  pub on_log : (e : Event) (s : R.State) → Same s (V.log e s).1

module _ (R : Win32Registry) (V : Services R.State) (Same : R.State → R.State → Type 0)
    (F : IsFrame R V Same) where
  open R use {State, Hkey}

  pub Keeps-open_key_raw :
      (h : Hkey) (name : Text) (sam : ℕ) → Keeps Same (open_key_raw R h name sam)
  unfolding open_key_raw
  Keeps-open_key_raw h name sam = record { from = λ s. F.on_open h _ sam s }

  pub Keeps-open_key :
      (r : RegistryRoot) (name : Text) (sam : ℕ) → Keeps Same (open_key R r name sam)
  unfolding open_key
  Keeps-open_key r name sam = record { from = λ s. F.on_open _ _ sam s }

  pub Keeps-open_subkey : (h : Hkey) (name : Text) (sam : ℕ) → Keeps Same (open_subkey R h name sam)
  unfolding open_subkey
  Keeps-open_subkey h name sam = record { from = λ s. F.on_open h _ sam s }

  pub Keeps-subkey_exists : (h : Hkey) (name : Text) → Keeps Same (subkey_exists R h name)
  unfolding subkey_exists
  Keeps-subkey_exists h name = record { from = λ s. F.on_open h _ _ s }

  pub Keeps-query_value_u32 : (h : Hkey) (name : Text) → Keeps Same (query_value_u32 R h name)
  unfolding query_value_u32
  Keeps-query_value_u32 h name = record { from = λ s. F.on_query h _ _ s }

  query_value_string-Same :
      (h : Hkey) (name : Text) (s : State) → Same s (query_value_string R V.expand h name s).1
  unfolding query_value_string
  query_value_string-Same h name s =
      let wide = to_wide_null name in
      let (out, s') = R.reg_query_value_ex h wide none s in
      let first = F.on_query h wide none s in
      elim (Bool-cases (not (out.status == error_success))) [
        | inl failed ↦ rw failed first
        | inr found ↦
            elim (Bool-cases
              (not (out.value_type == reg_sz) && not (out.value_type == reg_expand_sz))) [
                | inl other ↦ rw (found, other) first
                | inr string ↦
                    rw (found, string)
                      (F.same_trans s s' _ first (F.on_query h wide (some out.data_size) s'))
              ]
      ]

  pub Keeps-query_value_string :
      (h : Hkey) (name : Text) → Keeps Same (query_value_string R V.expand h name)
  Keeps-query_value_string h name = record { from = query_value_string-Same h name }

  pub Keeps-with_error :
      {E F A : Type 0} (f : E → F) (m : Program State E A)
      → Keeps Same m
      → Keeps Same (with_error f m)
  Keeps-with_error f m h = record { from = h.from }

  pub Keeps-pure : {E A : Type 0} (a : A) → Keeps Same (pure {E = E} a)
  Keeps-pure a = record { from = F.same_refl }

  pub Keeps-inspect : (p : Text) → Keeps Same (V.inspect p)
  Keeps-inspect p = record { from = F.on_inspect p }

  pub Keeps-seq :
      {E A B : Type 0} (m : Program State E A) (f : A → Program State E B)
      → Keeps Same m
      → ((a : A) → Keeps Same (f a))
      → Keeps Same (m >>= f)
  Keeps-seq = Keeps-bind Same F.same_refl F.same_trans

  pub Keeps-check : (b : Bool) (e : RepairError) → Keeps Same (raise_if b e)
  Keeps-check = Keeps-raise_if Same F.same_refl F.same_trans

  pub Keeps-branch :
      {A : Type 0} (b : Bool) (m n : Program State RepairError A)
      → Keeps Same m
      → Keeps Same n
      → Keeps Same (if b then m else n)
  Keeps-branch = Keeps-if Same F.same_refl F.same_trans

  pub ruleset reads = (
    Keeps-seq, Keeps-check, Keeps-branch, Keeps-with_error, Keeps-pure, Keeps-inspect,
    Keeps-open_key, Keeps-open_subkey, Keeps-subkey_exists, Keeps-query_value_string,
    Keeps-query_value_u32,
  )
