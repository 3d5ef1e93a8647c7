-- ===== src/Policy/Sentinel.antt =====
-- Provenance markers of adapters (src/policy/sentinel.ts). An adapter is what the markers say of it: the
-- value under UNAVAILABLE_ADAPTER and the value under DEMO_STUB_ADAPTER, where it has them. A value
-- that is no object has neither.
pub mod Marks
use formspec_web.Common.{
  String, Bool, false, ◌||◌, Option, none, some, Result, ok, ◌>>◌, throw_if, is_some,
}
use formspec_web.Policy.FeatureKeys.{RuntimeFeatureKey}

-- AdapterProvenanceMeta
pub record ProvenanceMeta : Type 0 where
  pub feature_key : RuntimeFeatureKey
  pub reason : String

pub record Adapter : Type 0 where
  pub unavailable_mark : Option ProvenanceMeta
  pub demo_stub_mark : Option ProvenanceMeta

unfoldable pub is_unavailable_adapter : Adapter → Bool
is_unavailable_adapter adapter = is_some adapter.unavailable_mark

unfoldable pub is_demo_stub_adapter : Adapter → Bool
is_demo_stub_adapter adapter = is_some adapter.demo_stub_mark

-- The error is its message.
unfoldable pub assert_not_already_marked : Adapter → Result String (Unit {0})
unfolding is_unavailable_adapter is_demo_stub_adapter
assert_not_already_marked adapter =
    throw_if (is_unavailable_adapter adapter || is_demo_stub_adapter adapter)
      "Adapter is already marked with a provenance symbol"

unfoldable pub mark_unavailable_adapter : Adapter → ProvenanceMeta → Result String Adapter
mark_unavailable_adapter adapter meta = do
  assert_not_already_marked adapter
  ok (record adapter { unavailable_mark = some meta })

unfoldable pub mark_demo_stub_adapter : Adapter → ProvenanceMeta → Result String Adapter
mark_demo_stub_adapter adapter meta = do
  assert_not_already_marked adapter
  ok (record adapter { demo_stub_mark = some meta })
