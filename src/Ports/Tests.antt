-- ===== src/Ports/Tests.antt =====
-- Runs of the port loops, and the theorems about them at concrete inputs.
use canyonos.Prelude.{
  ℕ, ◌≤◌, ◌<◌, ◌+◌, ◌≡◌, ◌⊎◌, refl, Bool, false, not, String, List, [], ◌∷◌, none, some, ltb, arith,
}
use canyonos.Ports.{
  Claim, claimed, has, used_ports, put, claim_host_port, container_port, free_from, first_port,
  find_free_port, usable, port_count,
}
use canyonos.Ports.Scan.{IsFirst, find_free_port_cases}
use canyonos.Ports.Claims.{NoClash, claim_host_port-NoClash}

abbrev records : List (String × Claim)
records =
    ("agent_instance:a-1", claimed "10.0.0.1" 50051)
    ∷ ("agent_instance:b-1", claimed "10.0.0.2" 50052)
    ∷ ("agent_instance:c-1", record { private_host = none; host_port = none })
    ∷ []

next_port :
    claim_host_port "10.0.0.1" "agent_instance:c-1" records
    ≡ some (50052, put "agent_instance:c-1" (claimed "10.0.0.1" 50052) records)
unfolding claim_host_port free_from used_ports first_port
next_port = refl

apart : NoClash records
apart = (
  (λ host port a b c d. ground arith, (λ host port a b c d. ground arith, tt)),
  ((λ host port a b c d. ground arith, tt), (tt, tt)),
)

claim_host_port-NoClash_example :
    (port : ℕ) × (claim_host_port "10.0.0.1" "agent_instance:c-1" records
      ≡ some (port, put "agent_instance:c-1" (claimed "10.0.0.1" port) records))
    × IsFirst (λ p. not (has (used_ports "10.0.0.1" records) p)) container_port port
    × NoClash (put "agent_instance:c-1" (claimed "10.0.0.1" port) records)
claim_host_port-NoClash_example =
    claim_host_port-NoClash "10.0.0.1" "agent_instance:c-1" records apart

abbrev is_port_free : ℕ → Bool
is_port_free p = ltb 65533 p

found : find_free_port is_port_free 65530 500 (65534 ∷ []) ≡ some 65535
unfolding find_free_port first_port
found = refl

find_free_port_cases_example :
    ((port : ℕ) × (find_free_port is_port_free 65530 500 (65534 ∷ []) ≡ some port)
      × IsFirst (usable is_port_free (65534 ∷ [])) 65530 port
      × (port < 65530 + 500)
      × (port < port_count))
    ⊎ ((find_free_port is_port_free 65530 500 (65534 ∷ []) ≡ none)
        × ((q : ℕ)
            → 65530 ≤ q
            → q < 65530 + 500
            → q < port_count
            → usable is_port_free (65534 ∷ []) q ≡ false))
find_free_port_cases_example = find_free_port_cases is_port_free 65530 500 (65534 ∷ [])
