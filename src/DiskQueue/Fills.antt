-- ===== src/DiskQueue/Fills.antt =====
-- The reader fills the interface through which a channel confirms.
use nsq.Base.{ℕ, ◌<◌, ◌≡◌, refl, arith, Bool, true, false, Option, none, some}
use nsq.Channel.Backend.{Backend}
use nsq.DiskQueue.Confirm.{ConfirmError, DiskReader, confirm_read}
use nsq.DiskQueue.Confirm.Correct.{
  IsOrdered, ConfirmsTo, already, failed, moved, confirm_read_correct,
}

abbrev pub has_failed : Option ConfirmError → Bool
has_failed none = false
has_failed (some e) = true

pub moves_of :
    {offset : ℕ} {d d' : DiskReader} {e : Option ConfirmError}
    → ConfirmsTo offset d d' e
    → d.confirmed_info.virtual_end < offset
    → has_failed e ≡ false
    → d'.confirmed_info.virtual_end ≡ offset
moves_of (already old) new fine = absurd (omega arith)
moves_of (failed x) new fine = cc
moves_of (moved d' new' low at same same') new fine = at

pub stays_of :
    {offset : ℕ} {d d' : DiskReader} {e : Option ConfirmError}
    → ConfirmsTo offset d d' e
    → has_failed e ≡ true
    → d'.confirmed_info.virtual_end ≡ d.confirmed_info.virtual_end
stays_of (already old) broken = refl
stays_of (failed x) broken = refl
stays_of (moved d' new low at same same') broken = cc

-- A reader whose offsets are in order.
unfoldable pub disk_backend : (ℕ → Option ℕ) → Backend
disk_backend size = record {
  Reader = (d : DiskReader) × IsOrdered d;
  confirmed = λ r. r.0.confirmed_info.virtual_end;
  confirmed_cnt = λ r. r.0.confirmed_info.total_msg_cnt;
  confirm_read = λ r offset cnt.
      let q = confirm_read size (some offset) cnt r.0 in
      ((q.0, (confirm_read_correct size offset cnt r.0 r.1).1), has_failed q.1);
  moves =
      λ r offset cnt new fine. moves_of (confirm_read_correct size offset cnt r.0 r.1).0 new fine;
  stays = λ r offset cnt broken. stays_of (confirm_read_correct size offset cnt r.0 r.1).0 broken;
}
