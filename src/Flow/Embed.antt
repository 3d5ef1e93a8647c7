-- ===== src/Flow/Embed.antt =====
-- The gate on the host of an embedded form (src/app/respondent-flow.ts, `verifyEmbedOriginAllowed`). The
-- browser's URL parser is the parameter `origin_of`: the origin of an absolute URL, or none where
-- `new URL` throws.
pub mod Allowed
use Prim.Native.String
use formspec_web.Common.{
  String, Bool, true, false, not, ◌&&◌, ◌||◌, Option, none, some, List, [], ◌∷◌, Result, ok, err,
  done, is_empty, str_eq, if◌then◌else◌,
}
use formspec_web.Js.{Value, elements, prop, strings}
use formspec_web.Policy.FeatureKeys.{embed, has_key}
use formspec_web.Policy.Shapes.{PolicyDocument, ResolvedRuntimeProfile}

-- What the embed transport reports: `isEmbedded()` and `hostOrigin()`.
pub record EmbedTransport : Type 0 where
  pub is_embedded : Bool
  pub host_origin : Option String

-- `getEmbedLimits(policy)?.allowedOrigins ?? []`, of a validated policy.
abbrev pub allowed_origins : PolicyDocument → List String
allowed_origins policy = strings (elements (prop (prop policy.limits "embed") "allowedOrigins"))

module _ (origin_of : String → Option String) where
  -- `normalizedEntry === normalizedHost`, where the entry is a URL.
  abbrev pub has_origin : String → Option String → Bool
  has_origin host none = false
  has_origin host (some origin) = str_eq origin host

  unfoldable pub matches_entry : String → List String → Bool
  matches_entry host [] = false
  matches_entry host (entry ∷ entries) =
      if str_eq entry "*"
      then true
      else if has_origin host (origin_of entry)
      then true
      else matches_entry host entries

  unfoldable pub matches_allowed_origin : String → List String → Bool
  matches_allowed_origin host_origin allowed =
      if is_empty allowed
      then false
      else elim (origin_of host_origin) [ none ↦ false | some host ↦ matches_entry host allowed ]

  -- The error is the reason given to EmbedOriginNotAllowedError.
  unfoldable pub verify_embed_origin_allowed :
      ResolvedRuntimeProfile → PolicyDocument → EmbedTransport → Result String (Unit {0})
  verify_embed_origin_allowed profile org_policy transport =
      if not (has_key profile.enabled embed)
      then done
      else if not transport.is_embedded
      then done
      else elim transport.host_origin [
        | none ↦
            err
              "embed transport reports the form is in an iframe but the host origin could not be determined"
        | some host ↦
            if not (matches_allowed_origin host (allowed_origins org_policy))
            then err (
                String.◌++◌ (String.◌++◌ "host origin \"" host)
                  "\" is not in the allowed-origins list")
            else done
      ]
