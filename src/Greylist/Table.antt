-- ===== src/Greylist/Table.antt =====
-- src/db/dao/greylist.rs: the `greylist` table, one row for each address. A time is in seconds.
pub mod Pins
use hotchkiss_io.Base.{
  Bool, List, Option, [], false, filter, if◌then◌else◌, is_some, leb, length, ltb, none, not, some,
  true, ℕ, ◌&&◌, ◌||◌, ◌∷◌,
}
use hotchkiss_io.Text.{Text, same}

pub record GreylistEntry : Type 0 where
  pub ip : Text
  pub reason : Text
  pub evidence : Option Text
  pub manual : Bool
  pub created_at : ℕ
  pub updated_at : ℕ
  pub expires_at : Option ℕ

abbrev pub is_after : ℕ → Option ℕ → Bool
is_after now none = false
is_after now (some e) = ltb now e

unfoldable pub is_active : GreylistEntry → ℕ → Bool
is_active e now = e.manual || is_after now e.expires_at

-- `INSERT … ON CONFLICT(ip) DO UPDATE`, with what either does.
unfoldable pub upsert :
    Text → GreylistEntry → (GreylistEntry → GreylistEntry) → List GreylistEntry → List GreylistEntry
upsert ip new change [] = new ∷ []
upsert ip new change (e ∷ t) = if same e.ip ip then change e ∷ t else e ∷ upsert ip new change t

unfoldable pub upsert_auto :
    List GreylistEntry → ℕ → Text → Text → Option Text → ℕ → List GreylistEntry
unfolding upsert
upsert_auto t now ip reason evidence expires_at =
    upsert ip
      (record {
        ip = ip;
        reason = reason;
        evidence = evidence;
        manual = false;
        created_at = now;
        updated_at = now;
        expires_at = some expires_at;
      })
      (λ e. record e {
        reason = reason;
        evidence = evidence;
        expires_at = some expires_at;
        updated_at = now;
      })
      t

unfoldable pub pin_manual : List GreylistEntry → ℕ → Text → Text → List GreylistEntry
unfolding upsert
pin_manual t now ip reason =
    upsert ip
      (record {
        ip = ip;
        reason = reason;
        evidence = none;
        manual = true;
        created_at = now;
        updated_at = now;
        expires_at = none;
      })
      (λ e. record e { reason = reason; manual = true; expires_at = none; updated_at = now }) t

-- The rows removed are counted.
unfoldable pub release : List GreylistEntry → Text → ℕ × List GreylistEntry
release t ip = (length (filter (λ e. same e.ip ip) t), filter (λ e. not (same e.ip ip)) t)

-- `ORDER BY updated_at DESC`: rows of one instant stay in the table's order.
insert_newest : GreylistEntry → List GreylistEntry → List GreylistEntry
insert_newest e [] = e ∷ []
insert_newest e (f ∷ t) = if leb f.updated_at e.updated_at then e ∷ f ∷ t else f ∷ insert_newest e t

unfoldable pub newest_first : List GreylistEntry → List GreylistEntry
unfolding insert_newest
newest_first [] = []
newest_first (e ∷ t) = insert_newest e (newest_first t)

-- `WHERE manual = 1 OR (expires_at IS NOT NULL AND expires_at > now)`
abbrev pub selects_active : ℕ → GreylistEntry → Bool
selects_active now e = e.manual || (is_some e.expires_at && is_after now e.expires_at)

unfoldable pub active : List GreylistEntry → ℕ → List GreylistEntry
unfolding newest_first
active t now = newest_first (filter (selects_active now) t)

abbrev is_due : ℕ → Option ℕ → Bool
is_due now none = false
is_due now (some e) = leb e now

-- `DELETE … WHERE manual = 0 AND expires_at IS NOT NULL AND expires_at <= now`
unfoldable pub prune_expired : List GreylistEntry → ℕ → ℕ × List GreylistEntry
prune_expired t now =
    let lapsed = λ (e : GreylistEntry). not e.manual && is_due now e.expires_at in
    (length (filter lapsed t), filter (λ e. not (lapsed e)) t)
