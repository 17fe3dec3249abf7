-- ===== src/Cose/Headers/Accepted.antt =====
-- What the header checks accept.
use scitt_payload_binding.Common.{
  ◌≡◌, ◌≢◌, refl, ◌↔◌, true, false, not, List, [], ◌∷◌, some, all, any, Bool-cases, inl, inr, subst,
}
use scitt_payload_binding.Errors.{Result, ok, raise_if, >>=-eq-ok, raise_if-eq-ok}
use scitt_payload_binding.Python.{Host}
use scitt_payload_binding.Cbor.Item.{Scalar, array, get, contains, keys, has_same_key}
use scitt_payload_binding.Cose.Sign1.{CoseSign1}
use scitt_payload_binding.Cose.Headers.{
  is_label, validate_label_map, critical_of, cose_crit, validate_cose_headers,
  validate_critical_headers,
}
use scitt_payload_binding.Cose.Headers.Labels.{
  Apart, elements_of, Labels, Contained, nil-Unseen, raised, validate_label_map_iff,
  critical_of-eq-ok, critical_of-elements_of,
}

-- Every label of both buckets is an integer or a text, no bucket repeats a label or has one of the
-- other, `crit` is in no unprotected bucket, and `critical` is its value: none, or a non-empty array
-- of labels, without a repetition, that are present in the protected bucket and understood.
pub record Accepted (host : Host) (cose : CoseSign1) (understood critical : List Scalar)
    : Type 0 where
  pub known : all is_label understood ≡ true
  pub protected_labels : Labels (keys cose.protected)
  pub protected_apart : Apart host (keys cose.protected)
  pub unprotected_labels : Labels (keys cose.unprotected)
  pub unprotected_apart : Apart host (keys cose.unprotected)
  pub disjoint : any (λ k. contains host k cose.unprotected) (keys cose.protected) ≡ false
  pub no_crit : contains host cose_crit cose.unprotected ≡ false
  pub absent : contains host cose_crit cose.protected ≡ false → critical ≡ []
  pub present :
      contains host cose_crit cose.protected ≡ true
      → (critical ≢ []) × (get host cose_crit cose.protected ≡ some (array (elements_of critical)))
  pub labels : Labels critical
  pub apart : Apart host critical
  pub contained : Contained host cose.protected critical
  pub processed : all (λ k. has_same_key host k understood) critical ≡ true

-- the outcome of the part of `validate_cose_headers` that reads `crit`
abbrev CritFits : Host → CoseSign1 → List Scalar → Type 0
CritFits host cose ks =
    (contains host cose_crit cose.protected ≡ false → ks ≡ [])
    × (contains host cose_crit cose.protected ≡ true
        → (ks ≢ []) × (get host cose_crit cose.protected ≡ some (array (elements_of ks))))
    × Labels ks
    × Apart host ks
    × Contained host cose.protected ks

abbrev crit_value : Host → CoseSign1 → Result (List Scalar)
crit_value host cose = elim (contains host cose_crit cose.protected) [
  | false ↦ ok []
  | true ↦ critical_of host cose.protected (get host cose_crit cose.protected)
]

crit_fits :
    (host : Host) (cose : CoseSign1) (ks : List Scalar)
    → crit_value host cose ≡ ok ks
    → CritFits host cose ks
crit_fits host cose ks h = elim (Bool-cases (contains host cose_crit cose.protected)) [
  | inl has ↦
      let (nonempty, value, ls, aps, cs) =
        critical_of-eq-ok host cose.protected (get host cose_crit cose.protected) ks
          (rw (has, crit_value) at h) in
      ((λ e. cc (has, e)), (λ _. (nonempty, value)), ls, aps, cs)
  | inr lacks ↦
      let none_left : [] ≡ ks = cc (rw (lacks, crit_value) at h) in
      subst (CritFits host cose) none_left ((λ _. refl), (λ e. cc (lacks, e)), tt, tt, tt)
]

fits-crit_value :
    (host : Host) (cose : CoseSign1) (ks : List Scalar)
    → CritFits host cose ks
    → crit_value host cose ≡ ok ks
fits-crit_value host cose [] (absent, present, ls, aps, cs) =
    elim (Bool-cases (contains host cose_crit cose.protected)) [
      | inl has ↦ absurd ((present has).0 refl)
      | inr lacks ↦ rw (lacks, crit_value)
    ]
fits-crit_value host cose (k ∷ ks) (absent, present, ls, aps, cs) =
    elim (Bool-cases (contains host cose_crit cose.protected)) [
      | inl has ↦
          rw (has, crit_value, (present has).1)
            (critical_of-elements_of host cose.protected k ks ls aps cs)
      | inr lacks ↦ cc (absent lacks)
    ]

accepted :
    (host : Host) (cose : CoseSign1) (understood critical : List Scalar)
    → validate_critical_headers host cose understood ≡ ok critical
    → Accepted host cose understood critical
unfolding validate_critical_headers validate_cose_headers
accepted host cose understood critical h =
    let (_, known, h1) = >>=-eq-ok (raise_if (not (all is_label understood)) _) _ h in
    let (found, valid, h2) = >>=-eq-ok (validate_cose_headers host cose) _ h1 in
    let (_, processed, last) =
      >>=-eq-ok (raise_if (not (all (λ k. has_same_key host k understood) found)) _) _ h2 in
    let same : found ≡ critical = cc last in
    let (_, p, v1) = >>=-eq-ok (validate_label_map host [] cose.protected) _ valid in
    let (_, u, v2) = >>=-eq-ok (validate_label_map host [] cose.unprotected) _ v1 in
    let (_, disjoint, v3) = >>=-eq-ok (raise_if _ _) _ v2 in
    let (_, no_crit, v4) = >>=-eq-ok (raise_if _ _) _ v3 in
    let (pl, pa, _) = (validate_label_map_iff host [] cose.protected).0 p in
    let (ul, ua, _) = (validate_label_map_iff host [] cose.unprotected).0 u in
    let (absent, present, ls, aps, cs) = crit_fits host cose found v4 in
    subst (Accepted host cose understood) same (record {
      known = raised (all is_label understood) _ known;
      protected_labels = pl;
      protected_apart = pa;
      unprotected_labels = ul;
      unprotected_apart = ua;
      disjoint = raise_if-eq-ok _ _ disjoint;
      no_crit = raise_if-eq-ok _ _ no_crit;
      absent = absent;
      present = present;
      labels = ls;
      apart = aps;
      contained = cs;
      processed = raised (all (λ k. has_same_key host k understood) found) _ processed;
    })

-- The header checks return `critical` exactly when every label of both buckets is an integer or a
-- text, no bucket repeats a label or has one of the other, `crit` is not unprotected, and `critical`
-- is empty for no `crit`, or else is its value: a non-empty array of labels without repetition that
-- are all present in the protected bucket and declared understood.
pub validate_critical_headers_iff :
    (host : Host) (cose : CoseSign1) (understood critical : List Scalar)
    → (validate_critical_headers host cose understood ≡ ok critical)
      ↔ Accepted host cose understood critical
unfolding validate_critical_headers validate_cose_headers
validate_critical_headers_iff host cose understood critical =
    (accepted host cose understood critical, backward)
  where
    backward :
        Accepted host cose understood critical
        → validate_critical_headers host cose understood ≡ ok critical
    backward a = rw (
      a.known,
      (validate_label_map_iff host [] cose.protected).1
          (a.protected_labels, a.protected_apart, nil-Unseen host (keys cose.protected)),
      (validate_label_map_iff host [] cose.unprotected).1
          (a.unprotected_labels, a.unprotected_apart, nil-Unseen host (keys cose.unprotected)),
      a.disjoint,
      a.no_crit,
      fits-crit_value host cose critical (a.absent, a.present, a.labels, a.apart, a.contained),
      a.processed,
    )
