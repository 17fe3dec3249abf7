-- ===== src/TypedRef/Context.antt =====
-- `ArtifactDigestContext` and `_context_set_sha256` of lib/cpb/typed_ref.py.
-- A frozenset is a list of its members: the code only asks for membership and for its sorted form.
use scitt_payload_binding.Common.{
  Bool, true, false, ◌||◌, not, Text, Bytes, List, [], ◌∷◌, ◌++◌, map, Option, none, some, codes,
  text_ltb, text_in, is_empty, any,
}
use scitt_payload_binding.Errors.{Result, ok, ◌>>◌, raise_if, value_error}
use scitt_payload_binding.Python.{Host}
use scitt_payload_binding.Platform.{Platform}
use scitt_payload_binding.Canonicalize.Digest.{hex}

pub record ArtifactDigestContext : Type 0 where
  pub name : Text
  pub algorithm : Text
  pub representation : Text
  pub purpose : Text
  pub whole_object_exclusion_set : Option (List Text)

abbrev pub bare_hex : Text
bare_hex = codes "bare-hex"

abbrev pub sha256_prefixed : Text
sha256_prefixed = codes "sha256-prefixed"

abbrev pub raw_name : Text
raw_name = codes "raw"

abbrev pub representations : List Text
representations = bare_hex ∷ sha256_prefixed ∷ raw_name ∷ []

abbrev pub has_empty_member : Option (List Text) → Bool
has_empty_member none = false
has_empty_member (some members) = any is_empty members

-- __post_init__
unfoldable pub post_init : ArtifactDigestContext → Result ArtifactDigestContext
post_init c =
    raise_if
      (is_empty c.name || is_empty c.algorithm || is_empty c.representation || is_empty c.purpose)
      value_error
    >> (raise_if (not (text_in c.representation representations)) value_error
        >> (raise_if (has_empty_member c.whole_object_exclusion_set) value_error >> ok c))

-- sorted(...) of strings
unfoldable pub insert_text : Text → List Text → List Text
insert_text t [] = t ∷ []
insert_text t (u ∷ us) = elim (text_ltb u t) [ true ↦ u ∷ insert_text t us | false ↦ t ∷ u ∷ us ]

unfoldable pub sort_texts : List Text → List Text
sort_texts [] = []
sort_texts (t ∷ ts) = insert_text t (sort_texts ts)

-- the elements of a list with "," between them
unfoldable pub join_comma : List Text → Text
join_comma [] = []
join_comma (t ∷ []) = t
join_comma (t ∷ u ∷ us) = t ++ (b',' ∷ join_comma (u ∷ us))

abbrev pub json_list : List Text → Text
json_list ts = b'[' ∷ (join_comma ts ++ (b']' ∷ []))

unfoldable pub exclusion_json : Host → Option (List Text) → Text
exclusion_json host none = codes "null"
exclusion_json host (some members) = json_list (map host.dumps (sort_texts members))

-- json.dumps(row, sort_keys=True, separators=(",", ":"), ensure_ascii=True)
unfoldable pub context_row : Host → ArtifactDigestContext → Text
context_row host c =
    codes "{\"algorithm\":"
    ++ (host.dumps c.algorithm
        ++ (codes ",\"name\":"
            ++ (host.dumps c.name
                ++ (codes ",\"purpose\":"
                    ++ (host.dumps c.purpose
                        ++ (codes ",\"representation\":"
                            ++ (host.dumps c.representation
                                ++ (codes ",\"whole_object_exclusion_set\":"
                                    ++ (exclusion_json host c.whole_object_exclusion_set
                                        ++ codes "}")))))))))

-- the bytes that are hashed; the JSON text is ASCII
unfoldable pub context_set_body : Host → Text → List ArtifactDigestContext → Bytes
context_set_body host name contexts =
    codes "cpb-artifact-type-definition-v1"
    ++ (0
        ∷ (codes "{\"contexts\":"
            ++ (json_list (sort_texts (map (context_row host) contexts))
                ++ (codes ",\"name\":" ++ (host.dumps name ++ codes "}")))))

unfoldable pub context_set_sha256 : Platform → Text → List ArtifactDigestContext → Text
context_set_sha256 platform name contexts =
    hex (platform.sha256 (context_set_body platform.host name contexts))
