-- ===== src/Policy/Sentinel/Marks.antt =====
-- What the marking functions keep.
use formspec_web.Common.{◌≡◌, false, ◌&&◌, ok, arith}
use formspec_web.Policy.Sentinel.{
  Adapter, ProvenanceMeta, is_unavailable_adapter, is_demo_stub_adapter, assert_not_already_marked,
  mark_unavailable_adapter, mark_demo_stub_adapter,
}

-- What was done to an adapter since it was made, a refused marking among them.
pub data Marked : Adapter → Type 0 where
  made :
      (a : Adapter) → is_unavailable_adapter a ≡ false → is_demo_stub_adapter a ≡ false → Marked a
  unavailable_marked :
      (a b : Adapter) (meta : ProvenanceMeta)
      → Marked a
      → mark_unavailable_adapter a meta ≡ ok b
      → Marked b
  demo_stub_marked :
      (a b : Adapter) (meta : ProvenanceMeta)
      → Marked a
      → mark_demo_stub_adapter a meta ≡ ok b
      → Marked b

-- An adapter that is made without markers and marked any number of times carries at most one.
pub Marked-exclusive :
    (a : Adapter) → Marked a → (is_unavailable_adapter a && is_demo_stub_adapter a) ≡ false
unfolding is_unavailable_adapter is_demo_stub_adapter assert_not_already_marked
    mark_unavailable_adapter mark_demo_stub_adapter
Marked-exclusive _ (made a h k) = ground arith
Marked-exclusive _ (unavailable_marked a b meta m h) = ground arith
Marked-exclusive _ (demo_stub_marked a b meta m h) = ground arith
