-- ===== src/Log/Terminals/Tests.antt =====
-- `MesLog` on a few calls.
use inmar_scope.Prelude.{ℕ, ◌≡◌, List, [], ◌∷◌, some, none, true, codes, Text}
use inmar_scope.Log.OrdMap.{find}
use inmar_scope.Log.Types.{MesEntry}
use inmar_scope.Log.Terminals.History.{
  calls_of, last_call, counted, mes_add_all, no_terminals, mes_add_all-find,
}

abbrev call : ℕ → Text → ℕ → MesEntry ℕ
call id action now = record {
  mes_id = id;
  action = action;
  sat = codes "POR";
  les = some 4;
  channel = none;
  last_seen = now;
  freq_mhz = 1537;
  msgs = 0;
}

abbrev calls : List (MesEntry ℕ)
calls = call 7 (codes "Login") 10 ∷ call 5 (codes "Poll") 20 ∷ call 7 (codes "Clear") 30 ∷ []

mes_add_all-find_example :
    find 7 (mes_add_all 0 (no_terminals 0 true) calls).entries
    ≡ some (record (call 7 (codes "Clear") 30) { msgs = 2 })
unfolding calls_of last_call counted
mes_add_all-find_example = mes_add_all-find 0 true calls 7
