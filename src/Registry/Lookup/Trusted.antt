-- ===== src/Registry/Lookup/Trusted.antt =====
-- What an artifact-type definition from a snapshot rests on.
use scitt_payload_binding.Common.{
  not-false, ◌≡◌, ◌≢◌, All, Among, refl, ◌∙◌, ap, subst, not, Text, List, [], ◌∷◌, ◌++◌, Option,
  none, some, true, false, Bool, all, Option-cases, inl, inr, if◌then◌else◌,
}
use scitt_payload_binding.Registry.Snapshot.Live.{IsLive, is_live_status-true, contexts_of-eq-ok}
use scitt_payload_binding.Registry.Lookup.Rows.{
  RowContexts, by_purpose-eq-ok, row_contexts-eq-ok, every-Among,
}
use scitt_payload_binding.Value.{Value, null, Items, no_items, Fields, obj, arr, str, get}
use scitt_payload_binding.Errors.{ok, raise_if, >>=-eq-ok, raise_if-eq-ok}
use scitt_payload_binding.Platform.{Platform}
use scitt_payload_binding.TypedRef.Context.{ArtifactDigestContext}
use scitt_payload_binding.TypedRef.Definition.{ArtifactTypeDefinition, snapshot_prefix}
use scitt_payload_binding.TypedRef.Definition.Intact.{Bound, from_trusted_snapshot-eq-ok}
use scitt_payload_binding.Registry.Snapshot.{
  RegistrySnapshot, is_live_status, status_key, artifact_types_key, contexts_key, contexts_of,
}
use scitt_payload_binding.Registry.Lookup.{
  Verdict, verified, reserved, unknown_id, id_unknown_to_snapshot, require_verified, table_of,
  entry_verdict, classify, lookup_in, lookup_artifact_type, by_purpose, row_contexts, has_purpose,
  live_entry, trusted_pin, artifact_type_definition,
}

-- The snapshot passed its integrity check against the trusted pin `pin`, `entry` is the entry of the
-- type in it and has the live status `status`, `contexts` are those of its rows, one each, every
-- implementation that was supplied is one of them, and `d` is intact, has those contexts and is
-- anchored to the pin.
pub record Trusted (platform : Platform) (snap : RegistrySnapshot) (type_name : Text)
    (implementations : List ArtifactDigestContext) (d : ArtifactTypeDefinition) : Type 0 where
  pub pin : Text
  pub entry : Fields
  pub rows : Items
  pub contexts : List ArtifactDigestContext
  pub digest : Text
  pub checked : snap.verified ≡ true
  pub pinned : snap.trusted_snapshot_sha256 ≡ some pin
  pub types : Fields
  pub has_types : get artifact_types_key snap.content ≡ some (obj types)
  pub found : get type_name types ≡ some (obj entry)
  pub status : Text
  pub has_status : get status_key entry ≡ some (str status)
  pub live : IsLive status
  pub has_rows : get contexts_key entry ≡ some (arr rows)
  pub filled : rows ≢ no_items
  pub from_rows : RowContexts type_name implementations rows contexts
  pub all_used : All (Among contexts) implementations
  pub bound : Bound platform contexts digest (snapshot_prefix ++ (b':' ∷ pin)) d

table_of-get :
    (o : Option Value) (id : Text) (v : Value)
    → get id (table_of o) ≡ some v
    → (types : Fields) × (o ≡ some (obj types)) × (get id types ≡ some v)
unfolding table_of get
table_of-get (some (obj fs)) id v h = (fs, refl, h)
table_of-get none id v h = cc
table_of-get (some _) id v h = cc

trusted_pin-eq-ok :
    (snap : RegistrySnapshot) (pin : Text)
    → trusted_pin snap ≡ ok pin
    → snap.trusted_snapshot_sha256 ≡ some pin
trusted_pin-eq-ok snap pin h = elim (Option-cases snap.trusted_snapshot_sha256) [
  | inl absent ↦ cc (rw (absent, trusted_pin) at h)
  | inr (found, e) ↦ let same : found ≡ pin = cc (rw (e, trusted_pin) at h) in e ∙ ap some same
]

verdict-verified : (b : Bool) → (if b then verified else reserved) ≡ verified → b ≡ true
verdict-verified true h = refl
verdict-verified false h = cc

live_entry-eq-ok :
    (r : Verdict × Option Fields) (entry : Fields)
    → live_entry r ≡ ok entry
    → r ≡ (verified, some entry)
live_entry-eq-ok (verified, some e) entry h =
    let same : e ≡ entry = cc h in ap (λ r. (verified, some r)) same
live_entry-eq-ok (verified, none) entry h = cc
live_entry-eq-ok (reserved, e) entry h = cc
live_entry-eq-ok (unknown_id, e) entry h = cc
live_entry-eq-ok (id_unknown_to_snapshot, e) entry h = cc

classify-verified :
    (pinned : Bool) (o : Option Value) (entry : Fields)
    → classify pinned o ≡ ok (verified, some entry)
    → (o ≡ some (obj entry)) × (is_live_status (get status_key entry) ≡ ok true)
unfolding classify entry_verdict
classify-verified pinned none entry h = cc
classify-verified pinned (some null) entry h = cc
classify-verified pinned (some (obj fs)) entry h =
    let (v, verdict, last) = >>=-eq-ok (entry_verdict fs) (λ w. ok (w, some fs)) h in
    let (b, status, chosen) = >>=-eq-ok (is_live_status (get status_key fs)) _ verdict in
    let found : ◌≡◌ {A = Verdict × Option Fields} (v, some fs) (verified, some entry) = cc last in
    let same : fs ≡ entry = cc (ap (λ r. r.1) found) in
    let is_verified : v ≡ verified = ap (λ r. r.0) found in
    let as_chosen : (if b then verified else reserved) ≡ v = cc chosen in
    let live = verdict-verified b (as_chosen ∙ is_verified) in
    (
      ap (λ gs. some (obj gs)) same,
      subst (λ gs. is_live_status (get status_key gs) ≡ ok true) same (status ∙ ap ok live),
    )
classify-verified pinned (some _) entry h = cc

-- A snapshot gives an artifact-type definition only when it was verified against a trusted pin and has
-- the type as a live entry; the definition is then intact, anchored to that pin, and has one context
-- for each of the entry's rows, in their order, with the row's purpose, algorithm and representation: a
-- supplied implementation, or metadata alone for a purpose without one. Every supplied implementation
-- is one of these contexts.
pub artifact_type_definition-eq-ok :
    (platform : Platform) (snap : RegistrySnapshot) (type_name : Text)
    (implementations : List ArtifactDigestContext) (d : ArtifactTypeDefinition)
    → artifact_type_definition platform snap type_name implementations ≡ ok d
    → Trusted platform snap type_name implementations d
unfolding artifact_type_definition lookup_artifact_type lookup_in require_verified
artifact_type_definition-eq-ok platform snap type_name implementations d h =
    let (_, checked, h1) = >>=-eq-ok (require_verified snap) _ h in
    let (pin, pinned, h2) = >>=-eq-ok (trusted_pin snap) _ h1 in
    let (found, looked_up, h3) = >>=-eq-ok (lookup_artifact_type snap type_name true) _ h2 in
    let (entry, is_live, h4) = >>=-eq-ok (live_entry found) _ h3 in
    let (_, supplied, h5) = >>=-eq-ok (by_purpose type_name [] implementations) _ h4 in
    let (rows, rows_of, h6) = >>=-eq-ok (contexts_of (get contexts_key entry)) _ h5 in
    let (contexts, from_rows, h7) = >>=-eq-ok (row_contexts type_name implementations rows) _ h6 in
    let (_, no_extra, h8) =
      >>=-eq-ok (raise_if (not (all (λ c. has_purpose contexts c.purpose) implementations)) _) _
        h7 in
    let (digest, bound) = from_trusted_snapshot-eq-ok platform contexts pin d h8 in
    let (_, _, classified) = >>=-eq-ok (require_verified snap) _ looked_up in
    let (present, live) =
      classify-verified true (get type_name (table_of (get artifact_types_key snap.content))) entry
        (classified ∙ ap ok (live_entry-eq-ok found entry is_live)) in
    let (types, has_types, listed) =
      table_of-get (get artifact_types_key snap.content) type_name (obj entry) present in
    let (status, has_status, is_listed) = is_live_status-true (get status_key entry) live in
    let (has_rows, filled) = contexts_of-eq-ok (get contexts_key entry) rows rows_of in
    let of_type = by_purpose-eq-ok type_name implementations supplied in
    let each = row_contexts-eq-ok type_name implementations rows contexts of_type from_rows in
    record {
      pin = pin;
      entry = entry;
      rows = rows;
      contexts = contexts;
      digest = digest;
      checked = not-false snap.verified (raise_if-eq-ok _ _ checked);
      pinned = trusted_pin-eq-ok snap pin pinned;
      types = types;
      has_types = has_types;
      found = listed;
      status = status;
      has_status = has_status;
      live = is_listed;
      has_rows = has_rows;
      filled = filled;
      from_rows = each;
      all_used =
          every-Among type_name implementations rows contexts of_type each
            (not-false _ (raise_if-eq-ok _ _ no_extra));
      bound = bound;
    }
