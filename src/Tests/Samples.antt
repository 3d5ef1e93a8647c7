-- ===== src/Tests/Samples.antt =====
-- Policy documents and instances for the runs.
use formspec_web.Common.{String, Option, none, some, [], ◌∷◌, str_eq, if◌then◌else◌}
use formspec_web.Js.{Value, undefined, int, pos, str, arr, obj, nil, cons, end, field}
use formspec_web.Policy.FeatureKeys.{RuntimeFeatureKey, multi_party, safe_address, screener}
use formspec_web.Policy.Shapes.{production}
use formspec_web.Policy.Validate.{ResolveInput}

-- A URL parser for which two texts are origins.
abbrev pub origins : String → Option String
origins s =
    if str_eq s "https://a.example"
    then some s
    else if str_eq s "https://b.example"
    then some s
    else none

abbrev pub party : String → Value
party id = obj (
    field "roleId" (str id) (
      field "role" (str "coEqual") (
        field "visibilityScope" (str "shared") (
          field "cardinality" (obj (field "min" (int (pos 1)) (field "max" (str "unbounded") end)))
            (field "visibleTo" (arr (cons (str "clerk") nil)) end)))))

abbrev pub parties_config : Value
parties_config = obj (
    field "tier" (str "coEqual")
      (field "parties" (arr (cons (party "buyer") (cons (party "seller") nil))) end))

abbrev pub address_limits : Value
address_limits = obj (
    field "acpJurisdictionsAccepted" (arr (cons (str "us-ca") nil))
      (field "authorizedAudiences" (arr (cons (str "issuer") (cons (str "court") nil))) end))

abbrev pub address_form : Value
address_form = obj (
    field "authorizedAudiences" (arr (cons (str "court") nil)) (
      field "fields"
        (arr (
          cons
            (obj (
              field "path" (str "/home") (
                field "accessClass" (str "safe-address")
                  (field "visibleTo" (arr (cons (str "court") (cons (str "clerk") nil))) end))))
            nil))
        end))

-- An instance with parties and safe addresses, and a screener for demonstrations.
abbrev pub office : RuntimeFeatureKey → String
office multi_party = "available"
office safe_address = "available"
office screener = "demo-stub"
office _ = "unavailable"

abbrev pub office_input : ResolveInput
office_input = record {
  mode = production;
  instance_of = office;
  org_policy = record {
    features = ("safeAddress", some "required") ∷ ("screener", some "default-on") ∷ [];
    limits = obj (
        field "safeAddress" address_limits (
          field "embed"
            (obj (field "allowedOrigins" (arr (cons (str "https://a.example") nil)) end)) end));
    record_lifecycle = undefined;
  };
  form_policy = record {
    features = ("multiParty", some "required") ∷ ("status", none) ∷ [];
    limits = obj (field "multiParty" parties_config (field "safeAddress" address_form end));
    record_lifecycle = undefined;
  };
}
