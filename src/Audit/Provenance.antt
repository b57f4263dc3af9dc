-- ===== src/Audit/Provenance.antt =====
-- audit/forwardedip.go: where a recorded address comes from.
use mathlib.Core.Bool.{◌&&◌}
use donkey_work_vault.Base.{
  ◌≡◌, ◌⊎◌, refl, ◌∙◌, arith, inl, inr, Bool-cases, Option-cases, true, List, [], ◌∷◌, some, Text,
  Within, any,
}
use donkey_work_vault.Audit.ForwardedIp.{
  NetIp, split_commas, is_trusted, hop_addr, first_addr, forwarded_addr, peer_text, resolve,
}

module _ {Addr Prefix : Type 0} (ip : NetIp Addr Prefix) where
  -- The address is that of a hop of X-Forwarded-For or of X-Real-IP.
  abbrev pub Named : Text → Text → Addr → Type 0
  Named x_forwarded_for x_real_ip a =
      ((hop : Text) × Within hop (split_commas x_forwarded_for) × (hop_addr ip hop ≡ some a))
      ⊎ (hop_addr ip x_real_ip ≡ some a)

  first_addr-Within :
      (hops : List Text) (a : Addr)
      → first_addr ip hops ≡ some a
      → (hop : Text) × Within hop hops × (hop_addr ip hop ≡ some a)
  first_addr-Within [] a h = absurd (cc h)
  first_addr-Within (hop ∷ hops) a h = elim (Option-cases (hop_addr ip hop)) [
    | inl e ↦
        let (later, w, k) = first_addr-Within hops a (rw (e, first_addr) at h) in (later, inr w, k)
    | inr (c, e) ↦ (hop, inl refl, e ∙ rw (e, first_addr) at h)
  ]

  forwarded_addr-Named : (x y : Text) (a : Addr) → forwarded_addr ip x y ≡ some a → Named x y a
  unfolding forwarded_addr
  forwarded_addr-Named x y a h = elim (Option-cases (first_addr ip (split_commas x))) [
    | inl e ↦ inr (rw (e, forwarded_addr) at h)
    | inr (c, e) ↦ inl (first_addr-Within (split_commas x) a (e ∙ rw (e, forwarded_addr) at h))
  ]

  -- An address is recorded that is the peer's own, or the peer is valid and trusted and a header
  -- names the address. From any other peer the headers have no effect.
  pub resolve-Named :
      (trusted : List Prefix) (peer : Addr) (x y : Text)
      → (resolve ip trusted peer x y ≡ peer_text ip peer)
        ⊎ ((ip.is_valid peer ≡ true)
            × (any (λ n. ip.covers n (ip.unmap peer)) trusted ≡ true)
            × ((a : Addr) × Named x y a × (resolve ip trusted peer x y ≡ ip.show (ip.unmap a))))
  unfolding resolve is_trusted
  resolve-Named trusted peer x y =
      elim (Bool-cases (ip.is_valid peer && is_trusted ip trusted peer)) [
        | inr other ↦ inl (rw other refl)
        | inl through ↦ elim (Option-cases (forwarded_addr ip x y)) [
          | inl e ↦ inl (rw (through, e) refl)
          | inr (a, e) ↦ inr (
            ground (arith, through),
            ground (arith, through),
            (a, forwarded_addr-Named x y a e, rw (through, e) refl),
          )
        ]
      ]
