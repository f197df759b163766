-- ===== src/Audit/Examples.antt =====
-- A trail that holds two events at most.
use jump_host.Base.{
  ◌↔◌, true, ◌*◌, ◌≤◌, ◌≡◌, refl, none, some, [], ◌∷◌, map, nat_eq, text_eq, text_beq, length, take,
  any, filter, text,
}
use jump_host.Base.Maps.{get}
use jump_host.Audit.Index.{insert, Redis, trim, write}
use jump_host.Audit.Bounds.{InStep, write-InStep, write-bounded}
use jump_host.Audit.Event.{Event, Fields, new_event, serialize, Row, Query, matches, list}
use jump_host.Audit.Readback.{pages, wanted_rows, list-pages}
use jump_host.Audit.Matching.{Wanted}
use jump_host.Base.Int.{pos}

abbrev fields : Fields
fields = record {
  uid = text "ann";
  auth_method = text "password";
  client_ip = none;
  mode = text "tui";
}

abbrev event : Event
event = new_event (text "e1") 7 fields

abbrev empty : Redis
empty = record { index = []; hashes = [] }

empty-InStep : InStep empty
unfolding any get
empty-InStep id = refl

write-InStep_example : InStep (write (some 2) (text "e1") 7 (serialize event) empty)
write-InStep_example = write-InStep (some 2) (text "e1") 7 (serialize event) empty empty-InStep

abbrev full : Redis
full = write (some 2) (text "e3") 9 (serialize event) (
    write (some 2) (text "e2") 8 (serialize event)
      (write (some 2) (text "e1") 7 (serialize event) empty))

oldest_gone : map (λ n. n.id) full.index ≡ text "e2" ∷ text "e3" ∷ []
unfolding write trim insert filter any text_beq
oldest_gone = refl

write-bounded_example : length full.index ≤ 2
write-bounded_example = write-bounded (some 2) (text "e3") 9 (serialize event) (
    write (some 2) (text "e2") 8 (serialize event)
      (write (some 2) (text "e1") 7 (serialize event) empty))

abbrev any_event : Query
any_event = record { uid = none; target = none; status = none }

list-pages_example :
    (pages 1 50 any_event full ≡ take (1 * 50) (wanted_rows any_event full))
    × (length (list 1 (pos 50) any_event full).results ≤ 50)
    × ((e : Row) → (matches any_event e ≡ true) ↔ Wanted any_event e)
list-pages_example = list-pages 1 50 any_event full
