-- ===== src/Sqlite3/Object/Safe.antt =====
-- No handler stores outside the buffer that it allocates, where its size is in the range of an int.
use tcl_dbi.Base.{
  ℕ, ◌+◌, ◌≤◌, ◌≡◌, ◌≢◌, refl, ap, false, arith, Option, none, some, List, [], ◌∷◌, ◌==◌,
  if◌then◌else◌, inl, inr, Bool-cases, Option-cases, map, length,
}
use mathlib.Core.Option
use tcl_dbi.Base.State.{◌>>=◌}
use tcl_dbi.Memory.{Bytes, NoNul, AllNoNul, IsInt}
use tcl_dbi.Sqlite3.Host.{Host, Stmt}
use tcl_dbi.Sqlite3.Session.{Session, Lookup, failed, got, prepare_cached}
use tcl_dbi.Sqlite3.Object.Common.{
  spread, at_even, Message, is_okay, fail, with_fields, with_parts, with_sql, use_lookup, run_step,
  Split, split_object, bad, parts, M, is_odd, fault, step_failed,
}
use tcl_dbi.Sqlite3.Object.Remove.{one_changed, delete, unset, unset_fields}
use tcl_dbi.Sqlite3.Object.Store.{
  insert, insert_result, insert_names, set, set_fields, set_or_insert, result_id,
}
use tcl_dbi.Sqlite3.Statement.{sum_lengths_min2, id_room}
use tcl_dbi.Sqlite3.Statement.Loops.{sum_lengths-le-min2}
use tcl_dbi.Sqlite3.Statement.Update.{set_sql-update_text, unset_sql-update_text}
use tcl_dbi.Sqlite3.Statement.Insert.{insert_sql-insert_text}
use tcl_dbi.Sqlite3.Statement.Select.{delete_sql-delete_text}

room_mono :
    (k : ℕ) (names : List Bytes) → k ≤ 11 → sum_lengths_min2 k names ≤ sum_lengths_min2 11 names
unfolding sum_lengths_min2
room_mono k [] h = omega arith
room_mono k (f ∷ fs) h = omega (arith, room_mono k fs h, h)

module _ ⦃host : Host⦄ where
  open host use {Obj, string, changes, step_result, append_element}

  abbrev room : List Obj → ℕ
  room os = sum_lengths_min2 11 (map string os)

  abbrev all_room : Option (List Obj) → ℕ
  all_room none = 0
  all_room (some fields) = room fields

  abbrev name_room : Option (List Obj) → ℕ
  name_room none = 0
  name_room (some fields) = room (at_even fields)

  room-at_even : (os : List Obj) → room (at_even os) ≤ room os
  unfolding sum_lengths_min2
  room-at_even [] = omega arith
  room-at_even (o ∷ []) = omega arith
  room-at_even (o ∷ p ∷ os) = omega (arith, room-at_even os)

  name_room-le : (fields : Option (List Obj)) → name_room fields ≤ all_room fields
  name_room-le none = omega arith
  name_room-le (some fields) = room-at_even fields

  abbrev part_room : Split Obj → ℕ
  part_room (bad m) = 0
  part_room (parts table id) = length (string table) + length (string id)

  spread-even : (os : List Obj) → is_odd (length os) ≡ false → spread os ≡ some os
  spread-even [] e = refl
  spread-even (o ∷ []) e = cc
  spread-even (o ∷ p ∷ os) e = refl

  abbrev Safe : M → Type 0
  Safe m = (s : Session Obj) → (m s).0 ≢ fault

  fail-Safe : (stmt : Stmt) (m : Message) → Safe (fail stmt m)
  fail-Safe stmt m s e = cc

  with_fields-Safe :
      (next : List Obj → M) (fields : Option (List Obj))
      → ((os : List Obj) → fields ≡ some os → Safe (next os))
      → Safe (with_fields next fields)
  unfolding with_fields
  with_fields-Safe next none k s e = cc
  with_fields-Safe next (some fields) k s e = k fields refl s e

  with_parts-Safe :
      (next : Obj → Obj → M) (x : Split Obj)
      → ((table id : Obj) → x ≡ parts table id → Safe (next table id))
      → Safe (with_parts next x)
  unfolding with_parts
  with_parts-Safe next (bad m) k = fail-Safe none m
  with_parts-Safe next (parts table id) k = k table id refl

  -- A text that fits its buffer.
  with_sql-Safe :
      (next : Stmt → M) {sql : Option Bytes} {text : Bytes}
      → sql ≡ some text
      → ((stmt : Stmt) → Safe (next stmt))
      → Safe (with_sql next sql)
  unfolding with_sql
  with_sql-Safe next {text} e k s =
      rw e (looked (prepare_cached text s).0 (prepare_cached text s).1)
    where
      looked : (l : Lookup) → Safe (use_lookup next l)
      looked (failed c) t h = cc
      looked (got stmt) t h = k stmt t h

  ended-Safe :
      (stmt : Stmt) (found : M)
      → Safe found
      → Safe (run_step stmt >>= λ code. if is_okay code then found else fail stmt step_failed)
  ended-Safe stmt found k s = elim (Bool-cases (is_okay (step_result s.calls stmt))) [
    | inl e ↦ rw e (k _)
    | inr e ↦ rw e (λ h. cc)
  ]

  one_changed-Safe :
      (found : M) (stmt : Stmt) (object : Obj) → Safe found → Safe (one_changed found stmt object)
  one_changed-Safe found stmt object k s = elim (Bool-cases (changes s.calls == 1)) [
    | inl e ↦ rw e (k s)
    | inr e ↦ rw e (λ h. cc)
  ]

  insert_result-Safe :
      (table : Obj) (id : Option Obj) (objv : List Obj) (stmt : Stmt)
      → Safe (insert_result table id objv stmt)
  unfolding insert_result
  insert_result-Safe table id objv stmt s =
      elim (Option-cases (append_element table (result_id id objv s.calls))) [
        | inl e ↦ rw (e, insert_result) (λ h. cc)
        | inr (o, e) ↦ rw (e, insert_result) (λ h. cc)
      ]

  module _ (clean : (o : Obj) → NoNul (string o)) where
    AllNoNul-map : (os : List Obj) → AllNoNul (map string os)
    AllNoNul-map [] = refl
    AllNoNul-map (o ∷ os) = rw (clean o, AllNoNul-map os)

    delete-Safe :
        (junk : ℕ) (object : Obj)
        → IsInt (44 + part_room (split_object object))
        → Safe (delete junk object)
    unfolding delete
    delete-Safe junk object int = with_parts-Safe _ (split_object object) λ table id p.
        with_sql-Safe _
          (delete_sql-delete_text junk (string table) (string id) (clean table)
            (omega (arith, ap part_room p)))
          λ stmt s. ended-Safe stmt _ (one_changed-Safe _ stmt object (λ t e. cc)) _

    unset_fields-Safe :
        (junk : ℕ) (object : Obj) (fs : List Obj)
        → IsInt (44 + part_room (split_object object) + room fs)
        → Safe (unset_fields junk object fs)
    unfolding unset_fields
    unset_fields-Safe junk object [] int s e = cc
    unset_fields-Safe junk object (f ∷ fs) int s e =
        with_parts-Safe _ (split_object object)
          (λ table id p.
            with_sql-Safe _
              (unset_sql-update_text junk (string table) (string id) (string f) (map string fs)
                (clean table) (AllNoNul-map (f ∷ fs))
                (omega (arith, ap part_room p, sum_lengths-le-min2 11 (map string (f ∷ fs)))))
              λ stmt s. ended-Safe stmt _ (one_changed-Safe _ stmt object (λ t e. cc)) _)
          s e

    insert_names-Safe :
        (junk : ℕ) (table : Obj) (id : Option Obj) (null : Option Bytes) (objv : List Obj)
        (names : List Bytes)
        → AllNoNul names
        → IsInt (
            44 + length (string table) + id_room (Option.map string id) + sum_lengths_min2 11 names)
        → Safe (insert_names junk table id null objv names)
    unfolding insert_names
    insert_names-Safe junk table id null objv [] k int s = λ e. cc
    insert_names-Safe junk table id null objv (f ∷ fs) k int s =
        elim (Bool-cases (is_odd (length objv))) [
          | inl e ↦ rw e (λ h. cc)
          | inr e ↦ rw e (
              with_sql-Safe _
                (insert_sql-insert_text junk (string table) (Option.map string id) f fs
                  (clean table) k (omega (arith, room_mono 5 (f ∷ fs) (omega arith))))
                (λ stmt s. ended-Safe stmt _ (insert_result-Safe table id objv stmt) _) s)
        ]

    insert-Safe :
        (junk : ℕ) (table : Obj) (id nullvalue : Option Obj) (objv : List Obj)
        → IsInt
            (44 + length (string table) + id_room (Option.map string id) + name_room (spread objv))
        → Safe (insert junk table id nullvalue objv)
    unfolding insert
    insert-Safe junk table id nullvalue objv int = with_fields-Safe _ (spread objv) λ fields e.
        insert_names-Safe junk table id _ fields _ (AllNoNul-map (at_even fields))
          (omega (arith, ap name_room e))

    set_or_insert-Safe :
        (junk : ℕ) (table id : Obj) (objv : List Obj) (stmt : Stmt)
        → IsInt (52 + length (string table) + length (string id) + name_room (spread objv))
        → Safe (set_or_insert junk table id objv stmt)
    unfolding set_or_insert
    set_or_insert-Safe junk table id objv stmt int s = elim (Bool-cases (changes s.calls == 1)) [
      | inl e ↦ rw e (λ h. cc)
      | inr e ↦ rw e (insert-Safe junk table (some id) none objv (omega arith) _)
    ]

    set_fields-Safe :
        (junk : ℕ) (object : Obj) (null : Option Bytes) (objv : List Obj) (names : List Bytes)
        → AllNoNul names
        → names ≡ map string (at_even objv)
        → IsInt (52 + part_room (split_object object) + room (at_even objv))
        → Safe (set_fields junk object null objv names)
    unfolding set_fields
    set_fields-Safe junk object null objv [] k q int s = λ e. cc
    set_fields-Safe junk object null objv (f ∷ fs) k q int s =
        elim (Bool-cases (is_odd (length objv))) [
          | inl e ↦ rw e (λ h. cc)
          | inr e ↦ rw e (
              with_parts-Safe _ (split_object object)
                (λ table id p.
                  with_sql-Safe _
                    (set_sql-update_text junk (string table) (string id) f fs (clean table) k (
                      omega (
                        arith,
                        ap part_room p,
                        ap (sum_lengths_min2 11) q,
                        room_mono 8 (f ∷ fs) (omega arith),
                      )))
                    λ stmt s.
                      ended-Safe stmt _
                        (set_or_insert-Safe junk table id objv stmt
                          (omega (arith, ap part_room p, ap name_room (spread-even objv e))))
                        _)
                s)
        ]

-- insert, set, unset and delete never store a byte outside the buffer that they allocate for their
-- statement, on all their branches and for all answers of SQLite, where no string holds a NUL byte and
-- the sizes are in the range of an int: the sum of 52, the lengths of the object, of an id that is
-- given (and eight more), of the table and the id that the object names, and of all arguments (each
-- taken as two bytes at least, and eleven more).
pub writers_stay_inside :
    ⦃host : Host⦄
    → ((o : host.Obj) → NoNul (host.string o))
    → (junk : ℕ) (o : host.Obj) (id nullvalue : Option host.Obj) (objv : List host.Obj)
      (s : Session host.Obj)
    → IsInt (
        52
        + length (host.string o)
        + id_room (Option.map host.string id)
        + part_room (split_object o)
        + all_room (spread objv))
    → ((insert junk o id nullvalue objv s).0 ≢ fault)
      × ((set junk o nullvalue objv s).0 ≢ fault)
      × ((unset junk o objv s).0 ≢ fault)
      × ((delete junk o s).0 ≢ fault)
unfolding set unset
writers_stay_inside ⦃host⦄ clean junk o id nullvalue objv s int =
    let le = name_room-le (spread objv) in
    (
      insert-Safe clean junk o id nullvalue objv (omega (arith, le)) s,
      with_fields-Safe _ (spread objv)
          (λ fields e.
            set_fields-Safe clean junk o _ fields _ (AllNoNul-map clean (at_even fields)) refl
              (omega (arith, le, ap name_room e)))
          s,
      with_fields-Safe _ (spread objv)
          (λ fields e. unset_fields-Safe clean junk o fields (omega (arith, ap all_room e))) s,
      delete-Safe clean junk o (omega arith) s,
    )
