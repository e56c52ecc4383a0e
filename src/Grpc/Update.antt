-- ===== src/Grpc/Update.antt =====
-- A batch over gRPC: all of it or nothing over the in-memory storage, what the agent sends is what is
-- stored, and no storage is touched for a peer outside the trusted network.
use study_project_metrics_an.Base.{
  String, ◌≡◌, ◌⊎◌, inl, inr, refl, Bool, true, Bool-cases, Option, none, some, Option-cases, List,
  [], ◌∷◌, map, All,
}
use study_project_metrics_an.Model.{Metrics}
use study_project_metrics_an.Storage.{Storage}
use study_project_metrics_an.Storage.Memory.{batch_update}
use study_project_metrics_an.Grpc.{
  Status, permission_denied, batch_status, update_metrics, trusted_subnet_interceptor,
  model_to_proto,
}
use study_project_metrics_an.Grpc.Convert.{IsReport, convert_all-model_to_proto}

-- What the agent sends in one gRPC batch is what the server applies: for metrics that an agent
-- makes, the server calls BatchUpdate of its storage with the very list that the agent had.
pub update_metrics-model_to_proto :
    {S : Type 0} (st : Storage S) (xs : List Metrics) (s : S)
    → All IsReport xs
    → update_metrics st (map model_to_proto xs) s
      ≡ ((st.batch_update xs s).0, batch_status (st.batch_update xs s).1)
unfolding update_metrics
update_metrics-model_to_proto st xs s h = rw (convert_all-model_to_proto xs h, update_metrics) refl

-- With a trusted network, a call either is denied and leaves the state alone, or is the call of
-- the handler for a peer whose first x-real-ip value is an address in the network.
pub trusted_subnet_interceptor-admits :
    {S Ip Subnet : Type 0} (parse_ip : String → Option Ip) (within : Subnet → Ip → Bool)
    (net : Subnet) (md : Option (List String)) (handler : S → S × Status) (s : S)
    → (trusted_subnet_interceptor parse_ip within (some net) md handler s ≡ (s, permission_denied))
      ⊎ ((v : String) × (vs : List String) × (ip : Ip) × (md ≡ some (v ∷ vs))
          × (parse_ip v ≡ some ip)
          × (within net ip ≡ true)
          × (trusted_subnet_interceptor parse_ip within (some net) md handler s ≡ handler s))
unfolding trusted_subnet_interceptor
trusted_subnet_interceptor-admits parse_ip within net none handler s = inl refl
trusted_subnet_interceptor-admits parse_ip within net (some []) handler s = inl refl
trusted_subnet_interceptor-admits parse_ip within net (some (v ∷ vs)) handler s =
    elim (Option-cases (parse_ip v)) [
      | inl bad ↦ inl (rw (bad, trusted_subnet_interceptor) refl)
      | inr (ip, parsed) ↦ elim (Bool-cases (within net ip)) [
        | inr outside ↦ inl (rw (parsed, trusted_subnet_interceptor) (rw outside refl))
        | inl inside ↦ inr (
          v,
          vs,
          ip,
          refl,
          parsed,
          inside,
          rw (parsed, trusted_subnet_interceptor) (rw inside refl),
        )
      ]
    ]
