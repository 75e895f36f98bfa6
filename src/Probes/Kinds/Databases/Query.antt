-- ===== src/Probes/Kinds/Databases/Query.antt =====
-- The query of the MongoDB probe.
use mittnite.Prelude.{
  String, ◌≡◌, refl, false, none, some, List, [], ◌∷◌, ◌++◌, Result, lookup, ◌==◌, string_eq,
  Bool-cases, inl, inr, arith,
}
use mittnite.Config.{MongoDb}
use mittnite.Probes.Kinds.{resolve_env}
use mittnite.Probes.Kinds.Databases.{
  MongoUrl, add_value_to_url_values_if_not_empty, resolve_mongo_db, mongo_query, mongo_url,
  new_mongo_db_probe,
}

lookup-add_value :
    (key other value : String) (q : List (String × String))
    → (key == other) ≡ false
    → lookup other q ≡ none
    → lookup other (add_value_to_url_values_if_not_empty key value q) ≡ none
unfolding add_value_to_url_values_if_not_empty lookup
lookup-add_value key other value q differ absent = elim (Bool-cases (value == "")) [
  | inl empty ↦ rw empty absent
  | inr given ↦ rw given (appended q absent)
]
  where
    appended :
        (q : List (String × String))
        → lookup other q ≡ none
        → lookup other (q ++ (key, value) ∷ []) ≡ none
    appended [] e = rw differ refl
    appended ((k, held) ∷ q) e = elim (Bool-cases (k == other)) [
      | inl hit ↦ ground (arith, hit)
      | inr miss ↦ rw miss (appended q (rw miss at e))
    ]

mongo_query-no_auth_source :
    (getenv : String → String) (c : MongoDb) → lookup "authSource" (mongo_query getenv c) ≡ none
unfolding mongo_query lookup
mongo_query-no_auth_source getenv c =
    let q = add_value_to_url_values_if_not_empty "replicaSet" c.replica_set_name [] in
    let q' = add_value_to_url_values_if_not_empty "gssapiServiceName" c.gssapi_service_name q in
    lookup-add_value "authMechanism" "authSource" c.authentication_mechanism q' refl (
      lookup-add_value "gssapiServiceName" "authSource" c.gssapi_service_name q refl
        (lookup-add_value "replicaSet" "authSource" c.replica_set_name [] refl refl))

-- The URL that is made from the single settings never names the database for authentication, also
-- where one is configured with a user and a password.
pub mongo_url-no_auth_source :
    (getenv : String → String) (parse_url : String → Result String MongoUrl) (c : MongoDb)
    → resolve_env getenv c.url ≡ ""
    → (u : MongoUrl) × ((new_mongo_db_probe getenv parse_url c).1.url ≡ some u)
      × (lookup "authSource" u.query ≡ none)
unfolding new_mongo_db_probe mongo_url
mongo_url-no_auth_source getenv parse_url c no_url = (
  mongo_url getenv (resolve_mongo_db getenv (record c { url = resolve_env getenv c.url })),
  rw no_url refl,
  mongo_query-no_auth_source getenv
      (resolve_mongo_db getenv (record c { url = resolve_env getenv c.url })),
)
