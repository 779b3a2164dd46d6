-- ===== src/Log/Terminals/History.antt =====
-- `MesLog` against the calls of `add`.
use inmar_scope.Prelude.{
  ℕ, ◌+◌, ◌≡◌, refl, ap, ◌∙◌, List, [], ◌∷◌, ◌++◌, Option, none, some, Bool, ◌==◌, if◌then◌else◌,
  arith, Bool-cases, Option-cases, inl, inr, append_assoc, append-nil,
}
use inmar_scope.Log.OrdMap.{Ascends, find, value_or, find-modify, modify-Ascends}
use inmar_scope.Log.Types.{MesEntry}
use inmar_scope.Log.Messages.{u64}
use inmar_scope.Log.Terminals.{MesLog, new_mes_entry, update_mes_entry, mes_add}

module _ {D : Type 0} where
  -- The calls for a terminal.
  unfoldable pub calls_of : ℕ → List (MesEntry D) → ℕ
  calls_of id [] = 0
  calls_of id (a ∷ cs) = (if a.mes_id == id then 1 else 0) + calls_of id cs

  -- The arguments of the last call for a terminal.
  unfoldable pub last_call : ℕ → List (MesEntry D) → Option (MesEntry D)
  last_call id [] = none
  last_call id (a ∷ cs) = elim (last_call id cs) [
    | some b ↦ some b
    | none ↦ if a.mes_id == id then some a else none
  ]

  -- The entry that the calls make: the last arguments and the number of calls.
  unfoldable pub counted : ℕ → Option (MesEntry D) → Option (MesEntry D)
  counted n none = none
  counted n (some a) = some (record a { msgs = u64 n })

  last_call-append :
      (id : ℕ) (cs : List (MesEntry D)) (a : MesEntry D)
      → last_call id (cs ++ a ∷ []) ≡ (if a.mes_id == id then some a else last_call id cs)
  unfolding last_call
  last_call-append id [] a = refl
  last_call-append id (b ∷ bs) a =
      rw (last_call-append id bs a)
        (elim (Bool-cases (a.mes_id == id)) [ inl own ↦ rw own refl | inr other ↦ rw other refl ])

  calls_of-append :
      (id : ℕ) (cs : List (MesEntry D)) (a : MesEntry D)
      → calls_of id (cs ++ a ∷ []) ≡ calls_of id cs + (if a.mes_id == id then 1 else 0)
  unfolding calls_of
  calls_of-append id [] a = omega arith
  calls_of-append id (b ∷ bs) a = omega (arith, calls_of-append id bs a)

  calls_of-none : (id : ℕ) (cs : List (MesEntry D)) → last_call id cs ≡ none → calls_of id cs ≡ 0
  unfolding last_call calls_of
  calls_of-none id [] e = refl
  calls_of-none id (a ∷ cs) e = ground (arith, e, calls_of-none id cs)

  -- What was counted before.
  count_before :
      (zero_real : D) (id : ℕ) (cs : List (MesEntry D))
      → u64 (
          (value_or (new_mes_entry zero_real) (counted (calls_of id cs) (last_call id cs))).msgs
          + 1)
        ≡ u64 (calls_of id cs + 1)
  unfolding counted new_mes_entry
  count_before zero_real id cs = elim (Option-cases (last_call id cs)) [
    | inl e ↦ rw (e, calls_of-none id cs e) refl
    | inr (a, e) ↦ rw e (omega arith)
  ]

module _ {D : Type 0} (zero_real : D) where
  -- Calls in order.
  unfoldable pub mes_add_all : MesLog D → List (MesEntry D) → MesLog D
  mes_add_all l [] = l
  mes_add_all l (a ∷ cs) = mes_add_all (mes_add zero_real l a).0 cs

  pub record Knows (l : MesLog D) (told : List (MesEntry D)) : Type 0 where
    pub ascends : Ascends 0 l.entries
    pub known : (id : ℕ) → find id l.entries ≡ counted (calls_of id told) (last_call id told)

  own_entry :
      (l : MesLog D) (told : List (MesEntry D)) (a : MesEntry D) (id : ℕ)
      → Knows l told
      → a.mes_id ≡ id
      → some (
          update_mes_entry zero_real a
            (value_or (new_mes_entry zero_real) (find a.mes_id l.entries)))
        ≡ some (record a { msgs = u64 (calls_of id told + 1) })
  unfolding update_mes_entry
  own_entry l told a id k e =
      let before = ap (λ (j : ℕ). find j l.entries) e ∙ k.known id in
      ap (λ o. some (record a { msgs = u64 ((value_or (new_mes_entry zero_real) o).msgs + 1) }))
        before
      ∙ ap (λ (n : ℕ). some (record a { msgs = n })) (count_before zero_real id told)

  entry_after :
      (l : MesLog D) (told : List (MesEntry D)) (a : MesEntry D)
      → Knows l told
      → (id : ℕ)
      → (if a.mes_id == id
          then some (
              update_mes_entry zero_real a
                (value_or (new_mes_entry zero_real) (find a.mes_id l.entries)))
          else find id l.entries)
        ≡ counted (calls_of id (told ++ a ∷ [])) (last_call id (told ++ a ∷ []))
  unfolding counted
  entry_after l told a k id = elim (Bool-cases (a.mes_id == id)) [
    | inl own ↦
        rw (last_call-append id told a, calls_of-append id told a, own)
          (own_entry l told a id k (ground (arith, own)))
    | inr other ↦
        let same : calls_of id told + 0 ≡ calls_of id told = omega arith in
        rw (last_call-append id told a, calls_of-append id told a, other, same) (k.known id)
  ]

  mes_add-Knows :
      (l : MesLog D) (told : List (MesEntry D)) (a : MesEntry D)
      → Knows l told
      → Knows (mes_add zero_real l a).0 (told ++ a ∷ [])
  unfolding mes_add
  mes_add-Knows l told a k = record {
    ascends =
        modify-Ascends l.entries a.mes_id (new_mes_entry zero_real) (update_mes_entry zero_real a) 0
          (omega arith) k.ascends;
    known = λ id.
        find-modify l.entries a.mes_id (new_mes_entry zero_real) (update_mes_entry zero_real a) 0 id
          k.ascends
        ∙ entry_after l told a k id;
  }

  mes_add_all-Knows :
      (cs : List (MesEntry D)) (l : MesLog D) (told : List (MesEntry D))
      → Knows l told
      → Knows (mes_add_all l cs) (told ++ cs)
  unfolding mes_add_all
  mes_add_all-Knows [] l told k = rw append-nil k
  mes_add_all-Knows (c ∷ cs) l told k =
      let next =
        mes_add_all-Knows cs (mes_add zero_real l c).0 (told ++ c ∷ [])
          (mes_add-Knows l told c k) in
      rw (append_assoc told (c ∷ []) cs) at next

  -- The log with no terminal.
  abbrev pub no_terminals : Bool → MesLog D
  no_terminals on = record { entries = []; has_store = on }

  nothing_known : (on : Bool) → Knows (no_terminals on) []
  unfolding find calls_of last_call counted
  nothing_known on = record { ascends = tt; known = λ id. refl }

  -- After any calls of `add` on an empty log, a terminal has an entry exactly if a call was for it;
  -- the entry has the arguments of the last such call and the number of these calls modulo 2^64.
  pub mes_add_all-find :
      (on : Bool) (cs : List (MesEntry D)) (id : ℕ)
      → find id (mes_add_all (no_terminals on) cs).entries
        ≡ counted (calls_of id cs) (last_call id cs)
  mes_add_all-find on cs id =
      (mes_add_all-Knows cs (no_terminals on) [] (nothing_known on)).known id
