-- ===== src/Store/Method/Invariant.antt =====
-- Every table holds each key once, and a row only under its own id, after any calls.
use donkey_work_vault.Base.{List, [], ◌∷◌}
use donkey_work_vault.Store.Mem.{Mem, new_mem}
use donkey_work_vault.Store.Method.{
  Method, add_access_key, enable_access_key, drop_access_key, touch_access_key, add_api_key,
  edit_api_key, drop_api_key, touch_api_key, add_config, edit_config, drop_config, add_state,
  drop_state, add_token, edit_token, drop_token, add_manifest, edit_manifest, drop_manifest,
  add_audit, drop_audit, run, run_all,
}
use donkey_work_vault.Store.WellFormed.{IsWellFormed}
use donkey_work_vault.Store.Method.Inserts.{
  run-add_access_key, run-add_api_key, run-add_config, run-add_state, run-add_token,
  run-add_manifest,
}
use donkey_work_vault.Store.Method.Writes.{
  run-edit_api_key, run-edit_config, run-edit_manifest, run-drop_access_key, run-drop_api_key,
  run-drop_config, run-drop_token, run-enable_access_key, run-touch_access_key, run-touch_api_key,
  run-edit_token, run-drop_state, run-drop_manifest, run-add_audit, run-drop_audit,
}

-- Every call leaves the tables tidy, whatever its arguments and whether it returns or fails.
pub run-IsWellFormed : (c : Method) (m : Mem) → IsWellFormed m → IsWellFormed (run c m)
run-IsWellFormed (add_access_key i t k) m h = run-add_access_key i t k m h
run-IsWellFormed (enable_access_key t u i b) m h = run-enable_access_key t u i b m h
run-IsWellFormed (drop_access_key u i) m h = run-drop_access_key u i m h
run-IsWellFormed (touch_access_key t i) m h = run-touch_access_key t i m h
run-IsWellFormed (add_api_key i t k) m h = run-add_api_key i t k m h
run-IsWellFormed (edit_api_key k) m h = run-edit_api_key k m h
run-IsWellFormed (drop_api_key u i) m h = run-drop_api_key u i m h
run-IsWellFormed (touch_api_key t i) m h = run-touch_api_key t i m h
run-IsWellFormed (add_config i t k) m h = run-add_config i t k m h
run-IsWellFormed (edit_config k) m h = run-edit_config k m h
run-IsWellFormed (drop_config u i) m h = run-drop_config u i m h
run-IsWellFormed (add_state i t k) m h = run-add_state i t k m h
run-IsWellFormed (drop_state i) m h = run-drop_state i m h
run-IsWellFormed (add_token i t k) m h = run-add_token i t k m h
run-IsWellFormed (edit_token k) m h = run-edit_token k m h
run-IsWellFormed (drop_token u i) m h = run-drop_token u i m h
run-IsWellFormed (add_manifest i t k) m h = run-add_manifest i t k m h
run-IsWellFormed (edit_manifest k) m h = run-edit_manifest k m h
run-IsWellFormed (drop_manifest u k s) m h = run-drop_manifest u k s m h
run-IsWellFormed (add_audit is es) m h = run-add_audit is es m h
run-IsWellFormed (drop_audit t n) m h = run-drop_audit t n m h

IsWellFormed-new_mem : IsWellFormed new_mem
IsWellFormed-new_mem = record {
  access_keys = record { distinct = tt; keyed = tt };
  api_keys = record { distinct = tt; keyed = tt };
  configs = record { distinct = tt; keyed = tt };
  states = record { distinct = tt; keyed = tt };
  tokens = record { distinct = tt; keyed = tt };
  manifests = record { distinct = tt; keyed = tt };
}

run_all_from : (cs : List Method) (m : Mem) → IsWellFormed m → IsWellFormed (run_all cs m)
unfolding run_all
run_all_from [] m h = h
run_all_from (c ∷ cs) m h = run_all_from cs (run c m) (run-IsWellFormed c m h)

-- After any calls on a new store every table holds each key once, and a row only under its own id.
pub run_all-IsWellFormed : (cs : List Method) → IsWellFormed (run_all cs new_mem)
run_all-IsWellFormed cs = run_all_from cs new_mem IsWellFormed-new_mem
