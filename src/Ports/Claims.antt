-- ===== src/Ports/Claims.antt =====
-- The claims that the replica records hold.
use canyonos.Prelude.{
  ℕ, ◌≡◌, ◌≢◌, refl, inl, inr, true, false, not, ◌||◌, String, List, [], ◌∷◌, ◌++◌, some, arith,
  All, Bool-cases, str_eq, eq_iff,
}
use canyonos.Prelude.Members.{All-map}
use canyonos.Ports.{Claim, has, port_on, used_ports, put, claimed, claim_host_port, container_port}
use canyonos.Ports.Scan.{IsFirst, free_from-IsFirst}

-- Two records do not hold one port of one host.
abbrev pub Apart : Claim → Claim → Type 0
Apart c d =
    (host : String) (port : ℕ)
    → c.private_host ≡ some host
    → c.host_port ≡ some port
    → d.private_host ≡ some host
    → d.host_port ≢ some port

abbrev pub NoClash : List (String × Claim) → Type 0
NoClash [] = Unit
NoClash (e ∷ records) = All (λ f. Apart e.1 f.1) records × NoClash records

-- The record does not hold the port of the host.
abbrev Free : String → ℕ → Claim → Type 0
Free host port c = c.private_host ≡ some host → c.host_port ≢ some port

has-append : (ps qs : List ℕ) (p : ℕ) → has (ps ++ qs) p ≡ has ps p || has qs p
has-append [] qs p = refl
has-append (q ∷ ps) qs p = ground (arith, has-append ps qs p)

has-port_on :
    (host : String) (port : ℕ) (c : Claim) → has (port_on host c) port ≡ false → Free host port c
has-port_on host port c h e f =
    let h1 : str_eq host host ≡ true = (eq_iff host host).1 refl in ground arith

used_ports-Free :
    (host : String) (port : ℕ) (records : List (String × Claim))
    → has (used_ports host records) port ≡ false
    → All (λ e. Free host port e.1) records
unfolding used_ports
used_ports-Free host port [] h = tt
used_ports-Free host port (e ∷ records) h =
    let both = has-append (port_on host e.1) (used_ports host records) port in
    (
      has-port_on host port e.1 (ground (arith, both)),
      used_ports-Free host port records (ground (arith, both)),
    )

Free-Apart : (host : String) (port : ℕ) (c : Claim) → Free host port c → Apart (claimed host port) c
Free-Apart host port c free h p eh ep fh fp = free (ground arith) (ground arith)

Free-Apart_right :
    (host : String) (port : ℕ) (c : Claim) → Free host port c → Apart c (claimed host port)
Free-Apart_right host port c free h p eh ep fh fp = free (ground arith) (ground arith)

All-put :
    (P : Claim → Type 0) (key : String) (c : Claim) (records : List (String × Claim))
    → P c
    → All (λ e. P e.1) records
    → All (λ e. P e.1) (put key c records)
unfolding put
All-put P key c [] h hs = (h, tt)
All-put P key c (e ∷ records) h hs = elim (Bool-cases (str_eq e.0 key)) [
  | inl same ↦ rw same (h, hs.1)
  | inr other ↦ rw other (hs.0, All-put P key c records h hs.1)
]

put-NoClash :
    (key host : String) (port : ℕ) (records : List (String × Claim))
    → All (λ e. Free host port e.1) records
    → NoClash records
    → NoClash (put key (claimed host port) records)
unfolding put
put-NoClash key host port [] free h = (tt, tt)
put-NoClash key host port (e ∷ records) free h = elim (Bool-cases (str_eq e.0 key)) [
  | inl same ↦ rw same (All-map _ _ records (λ f. Free-Apart host port f.1) free.1, h.1)
  | inr other ↦ rw other (
    All-put (Apart e.1) key (claimed host port) records (Free-Apart_right host port e.1 free.0) h.0,
    put-NoClash key host port records free.1 h.1,
  )
]

-- A claim always gets a port: the lowest one from the container's port on that no record holds on
-- the host. With the claim, no two records hold one port of one host, if none did before.
pub claim_host_port-NoClash :
    (host key : String) (records : List (String × Claim))
    → NoClash records
    → (port : ℕ) × (claim_host_port host key records
        ≡ some (port, put key (claimed host port) records))
      × IsFirst (λ p. not (has (used_ports host records) p)) container_port port
      × NoClash (put key (claimed host port) records)
unfolding claim_host_port
claim_host_port-NoClash host key records h =
    let (port, e, first) = free_from-IsFirst (used_ports host records) container_port in
    (
      port,
      rw (e, claim_host_port) refl,
      first,
      put-NoClash key host port records
          (used_ports-Free host port records (ground (arith, first.passes))) h,
    )
