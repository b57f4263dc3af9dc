-- ===== src/Audit/ForwardedIp.antt =====
-- audit/forwardedip.go: which address a request is recorded under. Package net/netip is a parameter.
use mathlib.Core.Bool.{◌&&◌}
use donkey_work_vault.Base.{
  ℕ, suc, ◌-◌, Bool, false, not, List, [], ◌∷◌, Option, none, some, Text, text, any, is_empty,
  is_some, has_prefix, trim_space, ltb, take, drop, ◌==◌, if◌then◌else◌,
}

-- What the code calls of net/netip: host_prefix is PrefixFrom(a, a.BitLen()).
pub record NetIp (Addr Prefix : Type 0) : Type 0 where
  pub parse_addr : Text → Option Addr
  pub parse_prefix : Text → Option Prefix
  pub host_prefix : Addr → Prefix
  pub is_valid : Addr → Bool
  pub unmap : Addr → Addr
  pub covers : Prefix → Addr → Bool
  pub show : Addr → Text

-- strings.IndexByte, with nothing for -1
unfoldable pub index_byte : Text → ℕ → Option ℕ
index_byte [] b = none
index_byte (c ∷ s) b =
    let rest = index_byte s b in
    if c == b then some 0 else elim rest [ none ↦ none | some i ↦ some (suc i) ]

-- strings.Split(s, ",")
unfoldable pub split_commas : Text → List Text
split_commas [] = [] ∷ []
split_commas (c ∷ s) =
    let rest = split_commas s in
    if c == 44 then [] ∷ rest else elim rest [ [] ↦ (c ∷ []) ∷ [] | t ∷ ts ↦ (c ∷ t) ∷ ts ]

-- `if end := strings.IndexByte(v, ']'); end > 0 { return v[1:end] }; return v`
abbrev pub within_brackets : Text → Option ℕ → Text
within_brackets v none = v
within_brackets v (some end) = if ltb 0 end then take (end - 1) (drop 1 v) else v

-- A colon that is not the first byte and that no other one follows starts a port.
abbrev pub before_port : Text → Option ℕ → Text
before_port v none = v
before_port v (some first) =
    if ltb 0 first && not (is_some (index_byte (drop (suc first) v) 58)) then take first v else v

unfoldable pub strip_port : Text → Text
strip_port v =
    if has_prefix v (text "[")
    then within_brackets v (index_byte v 93)
    else before_port v (index_byte v 58)

module _ {Addr Prefix : Type 0} (ip : NetIp Addr Prefix) where
  -- The ranges of one entry of the configuration.
  unfoldable pub ranges_of : Text → List Prefix
  ranges_of entry =
      let c = trim_space entry in
      if is_empty c then [] else elim (ip.parse_prefix c) [
        | some p ↦ p ∷ []
        | none ↦ elim (ip.parse_addr c) [ some a ↦ ip.host_prefix a ∷ [] | none ↦ [] ]
      ]

  unfoldable pub is_trusted : List Prefix → Addr → Bool
  is_trusted trusted peer =
      if not (ip.is_valid peer) then false else any (λ n. ip.covers n (ip.unmap peer)) trusted

  -- The address of one hop, if it is not blank and can be parsed.
  unfoldable pub hop_addr : Text → Option Addr
  hop_addr hop =
      if is_empty (trim_space hop) then none else ip.parse_addr (strip_port (trim_space hop))

  -- The loop over the hops.
  abbrev pub first_addr : List Text → Option Addr
  first_addr [] = none
  first_addr (hop ∷ hops) = elim (hop_addr hop) [ none ↦ first_addr hops | some a ↦ some a ]

  -- The address that the headers name: X-Forwarded-For's left-most, else X-Real-IP.
  unfoldable pub forwarded_addr : Text → Text → Option Addr
  forwarded_addr x_forwarded_for x_real_ip = elim (first_addr (split_commas x_forwarded_for)) [
    | some a ↦ some a
    | none ↦ hop_addr x_real_ip
  ]

  abbrev pub peer_text : Addr → Text
  peer_text peer = if ip.is_valid peer then ip.show (ip.unmap peer) else []

  unfoldable pub resolve : List Prefix → Addr → Text → Text → Text
  resolve trusted peer x_forwarded_for x_real_ip =
      if ip.is_valid peer && is_trusted trusted peer
      then elim (forwarded_addr x_forwarded_for x_real_ip) [
        | some a ↦ ip.show (ip.unmap a)
        | none ↦ peer_text peer
      ]
      else peer_text peer
