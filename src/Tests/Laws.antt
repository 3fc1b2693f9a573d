-- ===== src/Tests/Laws.antt =====
-- The small machine behaves as documented.
use win_profile.Base.{ap, text_eq_iff, text_eq_refl, arith}
use win_profile.Platform.Wide.{to_wide_null}
use win_profile.Platform.Registry.View.{
  SameContents, SameContents-refl, SameContents-trans, SameNames, SameNames-refl, SameNames-trans,
  ReadsFaithfully, RenamesFaithfully,
}
use win_profile.Repair.Engine.Keeps.{IsFrame}
use win_profile.Tests.Machine.{machine, view, services, children, list_handle}

pub reads : ReadsFaithfully view
unfolding machine view
reads = record {
  open_found = λ h n sam s e. ground arith;
  open_missing = λ h n sam s e. ground arith;
  query_found = λ h n capacity s e. ground arith;
}

pub renames : RenamesFaithfully view
unfolding machine view children
renames = record {
  rename_found = λ h old new s p q e. ground arith;
  rename_children = λ h old new s p q e n plain. ground arith;
  rename_failed = λ h old new s e n. ground arith;
  same_child = λ s k m n e. ap (children s k) ((text_eq_iff (to_wide_null m) (to_wide_null n)).0 e);
  same_refl = λ n. text_eq_refl (to_wide_null n);
}

pub contents_frame : IsFrame machine services (SameContents view)
unfolding machine view services
contents_frame = record {
  same_refl = SameContents-refl view;
  same_trans = SameContents-trans view;
  on_open = λ h w sam s. SameContents-refl view s;
  on_query = λ h w capacity s. SameContents-refl view s;
  on_inspect = λ p s. SameContents-refl view s;
  on_log = λ e s. SameContents-refl view s;
}

pub names_frame : IsFrame machine services (SameNames view (view.key_of list_handle))
unfolding machine view services
names_frame = record {
  same_refl = SameNames-refl view (view.key_of list_handle);
  same_trans = SameNames-trans view (view.key_of list_handle);
  on_open = λ h w sam s. SameNames-refl view (view.key_of list_handle) s;
  on_query = λ h w capacity s. SameNames-refl view (view.key_of list_handle) s;
  on_inspect = λ p s. SameNames-refl view (view.key_of list_handle) s;
  on_log = λ e s. SameNames-refl view (view.key_of list_handle) s;
}
