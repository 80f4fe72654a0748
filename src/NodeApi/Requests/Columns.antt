-- ===== src/NodeApi/Requests/Columns.antt =====
-- The columns that a request for logs names, of src/node_api/model/request.rs.
use pyrsia.Base.{
  ◌≡◌, refl, sym, ap, ◌∙◌, Option, none, some, List, [], ◌∷◌, map, Bytes, if◌then◌else◌, arith,
  Bool-cases, Option-cases, inl, inr,
}
use pyrsia.Outcome.{ok}
use pyrsia.TransparencyLog.Types.{TransparencyLog}
use pyrsia.TransparencyLog.Database.{bytes_eq, bytes_eq_iff}
use pyrsia.ArtifactService.Service.Verified.{Outcome-cases}
use pyrsia.NodeApi.Requests.{
  TransparencyLogField, id_field, package_type_field, package_specific_id_field,
  num_artifacts_field, package_specific_artifact_id_field, artifact_hash_field, source_hash_field,
  artifact_id_field, source_id_field, timestamp_field, operation_field, node_id_field,
  node_public_key_field, field_name, named_field, field_from_str, parse_fields, serialize_fields,
  field_value,
}

abbrev value_or : TransparencyLogField → Option TransparencyLogField → TransparencyLogField
value_or default none = default
value_or default (some field) = field

-- Only a field of this name
abbrev Names : Bytes → Option TransparencyLogField → Type 0
Names s o = (field : TransparencyLogField) → o ≡ some field → field_name field ≡ s

-- One test of the chain
named_step :
    (s : Bytes) (here : TransparencyLogField) {rest : Option TransparencyLogField}
    → Names s rest
    → Names s (if bytes_eq s (field_name here) then some here else rest)
named_step s here {rest} others field h = elim (Bool-cases (bytes_eq s (field_name here))) [
  | inl e ↦
      let same = (bytes_eq_iff s (field_name here)).0 e in
      let is_here : some here ≡ some field = ap (λ b. if b then some here else rest) (sym e) ∙ h in
      ap field_name (sym (ap (value_or here) is_here)) ∙ sym same
  | inr e ↦ others field (ap (λ b. if b then some here else rest) (sym e) ∙ h)
]

nothing : (s : Bytes) → Names s none
nothing s field h = absurd (ground arith)

named_field-field_name : (s : Bytes) → Names s (named_field s)
unfolding named_field field_name
named_field-field_name s = named_step s id_field (
    named_step s package_type_field (
      named_step s package_specific_id_field (
        named_step s num_artifacts_field (
          named_step s package_specific_artifact_id_field (
            named_step s artifact_hash_field (
              named_step s source_hash_field (
                named_step s artifact_id_field (
                  named_step s source_id_field (
                    named_step s timestamp_field (
                      named_step s operation_field (
                        named_step s node_id_field
                          (named_step s node_public_key_field (nothing s)))))))))))))

module _ (to_lowercase : Bytes → Bytes) where
  field_from_str-field_name :
      (s : Bytes) (field : TransparencyLogField)
      → field_from_str to_lowercase s ≡ ok field
      → field_name field ≡ to_lowercase s
  unfolding field_from_str
  field_from_str-field_name s field h = elim (Option-cases (named_field (to_lowercase s))) [
    | inl e ↦ absurd (ground arith)
    | inr (f, e) ↦
        let same : f ≡ field = ground arith in
        ap field_name (sym same) ∙ named_field-field_name (to_lowercase s) f e
  ]

  pub parse_fields-names :
      (names : List Bytes) (fields : List TransparencyLogField)
      → parse_fields to_lowercase names ≡ ok fields
      → map field_name fields ≡ map to_lowercase names
  unfolding parse_fields
  parse_fields-names [] fields h =
      let same : [] ≡ fields = ground arith in ap (map field_name) (sym same)
  parse_fields-names (name ∷ names) fields h =
      elim (Outcome-cases (field_from_str to_lowercase name)) [
        | inl (field, e) ↦ elim (Outcome-cases (parse_fields to_lowercase names)) [
          | inl (rest, e2) ↦
              let same : field ∷ rest ≡ fields = ground arith in
              ap (map field_name) (sym same)
              ∙ ap (λ t. t ∷ map field_name rest) (field_from_str-field_name name field e)
              ∙ ap (◌∷◌ (to_lowercase name)) (parse_fields-names names rest e2)
          | inr (inl (d, e2)) ↦ absurd (ground arith)
          | inr (inr e2) ↦ absurd (ground arith)
        ]
        | inr (inl (d, e)) ↦ absurd (ground arith)
        | inr (inr e) ↦ absurd (ground arith)
      ]

pub serialize_fields_lem :
    (fields : List TransparencyLogField) (log : TransparencyLog)
    → serialize_fields fields log ≡ map (λ field. (field_name field, field_value log field)) fields
unfolding serialize_fields
serialize_fields_lem [] log = refl
serialize_fields_lem (field ∷ fields) log =
    ap (◌∷◌ (field_name field, field_value log field)) (serialize_fields_lem fields log)

pub serialize_all :
    (fields : List TransparencyLogField) (found : List TransparencyLog)
    → map (serialize_fields fields) found
      ≡ map (λ log. map (λ field. (field_name field, field_value log field)) fields) found
serialize_all fields [] = refl
serialize_all fields (log ∷ found) =
    ap (λ row. row ∷ map (serialize_fields fields) found) (serialize_fields_lem fields log)
    ∙ ap (◌∷◌ (map (λ field. (field_name field, field_value log field)) fields))
        (serialize_all fields found)
