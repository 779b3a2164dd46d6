-- ===== src/Log/Terminals.antt =====
-- `MesLog` of src/decode/message_log.h: the mobile terminals by their numbers.
pub mod History
mod Tests
use inmar_scope.Prelude.{ℕ, ◌+◌, List, [], ◌∷◌, none, Bool, if◌then◌else◌, length}
use inmar_scope.Log.OrdMap.{OrdMap, modify, values}
use inmar_scope.Log.Types.{MesEntry, StoreCall, store_mes}
use inmar_scope.Log.Messages.{u64}

pub record MesLog (D : Type 0) : Type 0 where
  pub entries : OrdMap (MesEntry D)
  pub has_store : Bool

-- The value of `MesEntry` that `entries_[mesId]` makes; `zero_real` is `0.0`.
unfoldable pub new_mes_entry : {D : Type 0} → D → MesEntry D
new_mes_entry zero_real = record {
  mes_id = 0;
  action = [];
  sat = [];
  les = none;
  channel = none;
  last_seen = zero_real;
  freq_mhz = zero_real;
  msgs = 0;
}

module _ {D : Type 0} (zero_real : D) where
  -- The arguments of `add` come as the entry that they make, whose `msgs` is not read.
  unfoldable pub update_mes_entry : MesEntry D → MesEntry D → MesEntry D
  update_mes_entry args e = record args { msgs = u64 (e.msgs + 1) }

  unfoldable pub mes_add : MesLog D → MesEntry D → MesLog D × List (StoreCall D)
  unfolding update_mes_entry new_mes_entry
  mes_add l args = (
    record l {
      entries = modify args.mes_id (new_mes_entry zero_real) (update_mes_entry args) l.entries;
    },
    if l.has_store then store_mes args ∷ [] else [],
  )

unfoldable pub mes_snapshot : {D : Type 0} → MesLog D → List (MesEntry D)
mes_snapshot l = values l.entries

unfoldable pub mes_clear : {D : Type 0} → MesLog D → MesLog D
mes_clear l = record l { entries = [] }

unfoldable pub mes_size : {D : Type 0} → MesLog D → ℕ
mes_size l = length l.entries

pub mes_set_store : {D : Type 0} → MesLog D → Bool → MesLog D
mes_set_store l on = record l { has_store = on }
