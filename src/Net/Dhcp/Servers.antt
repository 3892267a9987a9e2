-- ===== src/Net/Dhcp/Servers.antt =====
-- The name servers that src/net/dhcp.rs offers, beside a list built in passes.
use tinyvmm.Prelude.{
  ℕ, zero, suc, ◌≤◌, ◌≡◌, inl, inr, Bool, true, false, not, ◌&&◌, List, [], ◌∷◌, ◌++◌, map, take,
  length, length-append, ltb, if◌then◌else◌, Bool-cases, arith, refl, ap, sym, ◌∙◌,
}
use mathlib.Core.List.{append_assoc, append-nil}
use tinyvmm.Net.Wire.{Ip}
use tinyvmm.Net.Dhcp.{max_dns, contains, unusable, local_resolver, same_ip, dns_from, usable_dns}

-- The gateway in the place of the host's own resolver.
abbrev pub offered : Ip → Ip → Ip
offered gateway host = if same_ip host local_resolver then gateway else host

-- Those that the guest can use.
abbrev pub keep : (Ip → Bool) → List Ip → List Ip
keep p [] = []
keep p (ip ∷ ips) = let rest = keep p ips in if p ip then ip ∷ rest else rest

-- Each once, the first time that it comes and is not in `seen`.
abbrev pub fresh : List Ip → List Ip → List Ip
fresh seen [] = []
fresh seen (ip ∷ ips) =
    let later = fresh seen ips in
    let next = fresh (seen ++ (ip ∷ [])) ips in if contains seen ip then later else ip ∷ next

take-full : (n : ℕ) (xs ys : List Ip) → length xs ≡ n → take n (xs ++ ys) ≡ xs
take-full zero [] ys e = refl
take-full zero (x ∷ xs) ys e = absurd (omega arith)
take-full (suc n) [] ys e = absurd (omega arith)
take-full (suc n) (x ∷ xs) ys e = ap (λ r. x ∷ r) (take-full n xs ys (omega arith))

take-short : (n : ℕ) (xs : List Ip) → length xs ≤ n → take n xs ≡ xs
take-short zero [] h = refl
take-short zero (x ∷ xs) h = absurd (omega arith)
take-short (suc n) [] h = refl
take-short (suc n) (x ∷ xs) h = ap (λ r. x ∷ r) (take-short n xs (omega arith))

module _ (gateway netmask : Ip) where
  abbrev pub usable : Ip → Bool
  usable ip = not (unusable gateway netmask ip)

  abbrev pub candidates : List Ip → List Ip
  candidates hosts = keep usable (map (offered gateway) hosts)

  -- A server taken, passed over, or met when three are there.
  abbrev limited : List Ip → List Ip → List Ip
  limited out hosts = take max_dns (out ++ fresh out (candidates hosts))

  abbrev chosen : Bool → Bool → Bool → List Ip → Ip → List Ip
  chosen u c l out ip = if u && not c && l then out ++ (ip ∷ []) else out

  abbrev ahead : Bool → Bool → Ip → List Ip → List Ip → List Ip
  ahead u c ip out hosts = take max_dns (
      out
      ++ (if u
          then (if c
              then fresh out (candidates hosts)
              else ip ∷ fresh (out ++ (ip ∷ [])) (candidates hosts))
          else fresh out (candidates hosts)))

  limited-cons :
      (u c : Bool) (out hosts : List Ip) (ip : Ip)
      → length out ≤ max_dns
      → limited (chosen u c (ltb (length out) max_dns) out ip) hosts ≡ ahead u c ip out hosts
  limited-cons false c out hosts ip h = refl
  limited-cons true true out hosts ip h = refl
  limited-cons true false out hosts ip h = elim (Bool-cases (ltb (length out) max_dns)) [
    | inl e ↦
        ap (λ t. limited (chosen true false t out ip) hosts) e
        ∙ ap (take max_dns)
            (append_assoc out (ip ∷ []) (fresh (out ++ (ip ∷ [])) (candidates hosts)))
    | inr e ↦
        let full : length out ≡ max_dns = ground arith in
        ap (λ t. limited (chosen true false t out ip) hosts) e
        ∙ take-full max_dns out (fresh out (candidates hosts)) full
        ∙ sym (take-full max_dns out (ip ∷ fresh (out ++ (ip ∷ [])) (candidates hosts)) full)
  ]

  chosen-length :
      (u c : Bool) (out : List Ip) (ip : Ip)
      → length out ≤ max_dns
      → length (chosen u c (ltb (length out) max_dns) out ip) ≤ max_dns
  chosen-length false c out ip h = h
  chosen-length true true out ip h = h
  chosen-length true false out ip h = elim (Bool-cases (ltb (length out) max_dns)) [
    | inl e ↦ rw e (ground (arith, length-append out (ip ∷ []), e))
    | inr e ↦ rw e h
  ]

  ahead-fresh :
      (u : Bool) (ip : Ip) (out hosts : List Ip)
      → ahead u (contains out ip) ip out hosts
        ≡ take max_dns (out ++ fresh out (if u then ip ∷ candidates hosts else candidates hosts))
  ahead-fresh true ip out hosts = refl
  ahead-fresh false ip out hosts = refl

  dns_from_lem :
      (hosts out : List Ip)
      → length out ≤ max_dns
      → dns_from gateway netmask hosts out ≡ limited out hosts
  unfolding dns_from
  dns_from_lem [] out h =
      sym (take-short max_dns (out ++ []) (omega (arith, length-append out [])) ∙ append-nil out)
  dns_from_lem (host ∷ hosts) out h =
      let ip = offered gateway host in
      dns_from_lem hosts (chosen (usable ip) (contains out ip) (ltb (length out) max_dns) out ip)
        (chosen-length (usable ip) (contains out ip) out ip h)
      ∙ limited-cons (usable ip) (contains out ip) out hosts ip h
      ∙ ahead-fresh (usable ip) ip out hosts

  -- The servers that are offered are the first three of the host's that the guest can use, in the host's
  -- order and each once, with the gateway in the place of the host's own resolver.
  pub usable_dns_lem :
      (hosts : List Ip)
      → usable_dns hosts gateway netmask ≡ take max_dns (fresh [] (candidates hosts))
  unfolding usable_dns
  usable_dns_lem hosts = dns_from_lem hosts [] (omega arith)
