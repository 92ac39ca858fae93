-- ===== src/Schema/Manifest/Agents/Names.antt =====
-- The names of the agents that are read.
use canyonos.Prelude.{
  ℕ, ◌≡◌, subst, false, String, List, [], ◌∷◌, arith, str_eq, contains, All, map,
}
use canyonos.Prelude.Distinct.{Distinct, Fresh, Distinct-cons}
use canyonos.Schema.{Place, Host}
use canyonos.Schema.Clean.{Clean, bind-Clean}
use canyonos.Schema.Manifest.{AgentSpec, endpoint_agent_name}
use canyonos.Schema.Manifest.Agents.{check_name, check_names, claim, specs_of}

module _ (host : Host) where
  -- The names in lower case, as the images and containers are named.
  abbrev pub image_names : List AgentSpec → List String
  image_names specs = map (λ a. host.lower a.name) specs

  abbrev pub IsNotEndpoint : String → Type 0
  IsNotEndpoint n = str_eq n endpoint_agent_name ≡ false

  check_name-Clean :
      (n : String) (p : Place) (seen : List String)
      → Clean (check_name host n p seen)
      → IsNotEndpoint n × (contains seen n ≡ false)
  unfolding check_name
  check_name-Clean n p seen h = ground arith

  -- A loop over the names that reports nothing has seen distinct names, none of them the endpoint's.
  pub check_names-Distinct :
      (parsed : List (ℕ × AgentSpec)) (seen : List String)
      → Clean (check_names host parsed seen)
      → (Fresh seen (image_names (specs_of parsed)) × Distinct (image_names (specs_of parsed)))
        × All IsNotEndpoint (image_names (specs_of parsed))
  unfolding check_names
  check_names-Distinct [] seen h = ((tt, tt), tt)
  check_names-Distinct ((i, a) ∷ rest) seen h =
      let r = bind-Clean _ _ h in
      let n = check_name-Clean (host.lower a.name) _ seen r.0 in
      let claimed : claim host (host.lower a.name) seen ≡ host.lower a.name ∷ seen =
        ground (arith, n) in
      let ih =
        check_names-Distinct rest (host.lower a.name ∷ seen)
          (subst (λ s. Clean (check_names host rest s)) claimed r.1) in
      (Distinct-cons (host.lower a.name) seen (image_names (specs_of rest)) n.1 ih.0, (n.0, ih.1))
