-- ===== src/Crypto/LocalKek.antt =====
-- localkek.go: the KEKs of the configuration, which wrap and unwrap DEKs.
use donkey_work_vault.Base.{
  ◌+◌, ◌-◌, List, [], ◌∷◌, ◌++◌, not, ◌==◌, Text, text, text_eq, length, take, drop, ltb, is_empty,
  is_some, Option, some, none, if◌then◌else◌, plain, Result, ok, err, check,
}
use donkey_work_vault.Base.Fallible.{◌>>=◌, ◌>>◌}
use donkey_work_vault.Base.Base64.{std_decode}
use donkey_work_vault.Base.Exec
use donkey_work_vault.Base.Exec.{Exec, lift, pure}
use donkey_work_vault.Crypto.{nonce_size, tag_size, Aead, opened, check_key, read_full, KekProvider}

-- The map from KEK ids to keys.
unfoldable pub kek_of : Text → List (Text × Text) → Option Text
kek_of id [] = none
kek_of id ((k, key) ∷ m) = if text_eq k id then some key else kek_of id m

pub record LocalKekProvider : Type 0 where
  pub keks : List (Text × Text)
  pub active_kek : Text

-- The loop of NewLocalKekProvider.
unfoldable pub decode_keks : List (Text × Text) → Result (List (Text × Text))
decode_keks [] = ok []
decode_keks ((id, b64) ∷ m) =
    let rest = decode_keks m in
    elim (std_decode b64) [
      | none ↦ err (plain (text "KEK is not valid base64"))
      | some key ↦
          if not (length key == 32)
          then err (plain (text "KEK must be 32 bytes (256-bit)"))
          else do more ← rest; ok ((id, key) ∷ more)
    ]

unfoldable pub new_local_kek_provider : Text → List (Text × Text) → Result LocalKekProvider
new_local_kek_provider active_kek_id keks_base64 = do
  check (not (is_empty active_kek_id)) (plain (text "Vault:Crypto:ActiveKekId is not configured"))
  check (not (length keks_base64 == 0))
      (plain (text "Vault:Crypto:Keks is empty; at least one KEK is required"))
  keks ← decode_keks keks_base64
  check (is_some (kek_of active_kek_id keks))
      (plain (text "ActiveKekId is not present in Vault:Crypto:Keks"))
  ok (record { keks = keks; active_kek = active_kek_id })

-- A missing entry of a Go map is nil.
abbrev pub or_nil : Option Text → Text
or_nil none = []
or_nil (some key) = key

unfoldable pub wrap : Aead → LocalKekProvider → Text → Exec Text Text
wrap aead p dek = Exec.◌>>=◌ (lift (check_key (or_nil (kek_of p.active_kek p.keks)))) λ key.
    Exec.◌>>=◌ (read_full nonce_size) λ nonce.
      let sealed = aead.seal key nonce dek in
      let ct = take (length sealed - tag_size) sealed in
      let tag = drop (length sealed - tag_size) sealed in pure (nonce ++ (tag ++ ct))

-- The rest of Unwrap, with the key that the id has.
unwrap_with : Aead → Option Text → Text → Result Text
unwrap_with aead none wrapped = err (plain (text "unknown kekId; no matching key in configuration"))
unwrap_with aead (some key) wrapped =
    if ltb (length wrapped) (nonce_size + tag_size)
    then err (plain (text "wrapped DEK is too short"))
    else (let nonce = take nonce_size wrapped in
        let tag = take tag_size (drop nonce_size wrapped) in
        let ct = drop (nonce_size + tag_size) wrapped in
        check_key key >>= λ k. opened (aead.open_sealed k nonce (ct ++ tag)))

unfoldable pub unwrap : Aead → LocalKekProvider → Text → Text → Result Text
unfolding unwrap_with
unwrap aead p kek_id wrapped = unwrap_with aead (kek_of kek_id p.keks) wrapped

-- The provider as the KekProvider that the envelope cipher takes.
abbrev pub as_kek_provider : Aead → LocalKekProvider → KekProvider
as_kek_provider aead p = record {
  active_kek_id = p.active_kek;
  wrap = wrap aead p;
  unwrap = unwrap aead p;
}
