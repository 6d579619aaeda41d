-- ===== src/Ticket/Records.antt =====
-- crates/drv-thru/src/ticket.rs: `TicketStore::records`, which lists the tickets by their age.
use drv_thru.Base.{
  Bool, true, false, ◌&&◌, ◌||◌, [], ◌∷◌, Result, ok, ◌>>=◌, ltb, ◌==◌, if◌then◌else◌,
}
use drv_thru.Text.{Text}
use drv_thru.Ticket.{TicketRecord, TicketFile, TicketError, Tickets, Env, load}

-- `cmp` of texts, as `<=`: their code points one after another.
unfoldable pub leb_text : Text → Text → Bool
leb_text [] t = true
leb_text (c ∷ s) [] = false
leb_text (c ∷ s) (d ∷ t) = ltb c d || (c == d && leb_text s t)

-- The closure of `sort_by`: by creation, then by id.
unfoldable pub not_after : Text × TicketRecord → Text × TicketRecord → Bool
unfolding leb_text
not_after (id, r) (other_id, other) =
    ltb r.created_at_unix other.created_at_unix
    || (r.created_at_unix == other.created_at_unix && leb_text id other_id)

-- `sort_by` by insertion. Ids are the keys of a map, so that no two entries are equal.
unfoldable pub insert_record : Text × TicketRecord → Tickets → Tickets
unfolding not_after
insert_record entry [] = entry ∷ []
insert_record entry (first ∷ rest) =
    let later = first ∷ insert_record entry rest in
    if not_after entry first then entry ∷ first ∷ rest else later

unfoldable pub sort_records : Tickets → Tickets
unfolding insert_record
sort_records [] = []
sort_records (entry ∷ rest) = insert_record entry (sort_records rest)

unfoldable pub records : Env → TicketFile → Result TicketError Tickets
unfolding load sort_records
records env file = do tickets ← load env file; ok (sort_records tickets)
