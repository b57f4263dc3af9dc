-- ===== src/Store/Claims.antt =====
-- memstore.go: an OAuth state is claimed once.
use donkey_work_vault.Base.{ℕ, ◌≡◌, ◌≢◌, refl, ◌∙◌, arith, some, none, ok}
use donkey_work_vault.Base.Table.{get, remove, get-remove}
use donkey_work_vault.Store.Types.{OauthState}
use donkey_work_vault.Store.Mem.{Mem, fail_lem}
use donkey_work_vault.Store.Mem.States.{delete_state, delete_oauth_state}

delete_oauth_state_lem :
    (i : ℕ) (m : Mem) → m.fail_next ≡ none → delete_oauth_state i m ≡ delete_state i m
unfolding delete_oauth_state
delete_oauth_state_lem i m h = rw (fail_lem m h) refl

pub delete_oauth_state-found :
    (i : ℕ) (s : OauthState) (m : Mem)
    → m.fail_next ≡ none
    → get i m.states ≡ some s
    → delete_oauth_state i m ≡ (ok 1, record m { states = remove i m.states })
unfolding delete_state
delete_oauth_state-found i s m h e = delete_oauth_state_lem i m h ∙ rw (e, delete_state) refl

-- On a store that does not fail, deleting a stored OAuth state reports one row, the state is gone
-- and every other state is as it was; deleting it again reports no row and changes nothing.
pub delete_oauth_state-once :
    (i : ℕ) (s : OauthState) (m : Mem)
    → m.fail_next ≡ none
    → get i m.states ≡ some s
    → (n : Mem) × (delete_oauth_state i m ≡ (ok 1, n))
      × (get i n.states ≡ none)
      × ((j : ℕ) → j ≢ i → get j n.states ≡ get j m.states)
      × (delete_oauth_state i n ≡ (ok 0, n))
unfolding delete_state
delete_oauth_state-once i s m h e =
    let n : Mem = record m { states = remove i m.states } in
    let gone : get i n.states ≡ none = ground (arith, get-remove i i m.states) in
    (
      n,
      delete_oauth_state-found i s m h e,
      gone,
      (λ j d. ground (arith, get-remove i j m.states)),
      delete_oauth_state_lem i n h ∙ rw (gone, delete_state) refl,
    )
