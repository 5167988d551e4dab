-- ===== src/Command/Session/Recorded.antt =====
-- What is on record of a transaction that a call of railctl hands to the node.
use mathlib.Core.Path.{subst}
use juice_rail.Base.{◌≡◌, sym, Bool, true, false, not, List, [], ◌∷◌, if◌then◌else◌}
use juice_rail.Base.Lists.{Bytes, All, eq_bytes}
use juice_rail.Base.Error.{Result, ok, err, ok-injective}
use juice_rail.Command.{valid_halt_point}
use juice_rail.Command.Moves.{Active-run_command}
use juice_rail.Command.Open.{Files, Opened, open_app}
use juice_rail.Command.Session.{
  Invocation, Home, opening_in, world_of, world_after, Ending, on_opened, start_profile, run_words,
  run,
}
use juice_rail.Intent.{codes}
use juice_rail.Profile.Disk.{Disk, put_at}
use juice_rail.Trace.{NeverZero, IsRecorded}

-- The transactions of a call are attempts on record in the store of the account.
abbrev AllRecorded : Opened → Ending → Type 0
AllRecorded a end = All (IsRecorded a.app.rail (end.home.files a.path).tables) end.sent

module _ (v : Invocation) (d : Disk) where
  opened_records :
      (a : Opened) (files : Files)
      → NeverZero a.app.rail
      → AllRecorded a (on_opened v d (ok a, files))
  unfolding on_opened
  opened_records a files never =
      let w = world_of a files in
      let moves = (Active-run_command a.app v.fuel v.args).at w in
      rw (put_at files a.path (world_after v a files).store) (moves.accounted never tt)

  on_opened_records :
      (out : Result Opened × Files) (a : Opened)
      → out.0 ≡ ok a
      → NeverZero a.app.rail
      → AllRecorded a (on_opened v d out)
  on_opened_records (err e, files) a h never = cc
  on_opened_records (ok b, files) a h never =
      let same = ok-injective h in
      subst (λ x. AllRecorded x (on_opened v d (ok b, files))) same
        (opened_records b files (subst (λ x. NeverZero x.app.rail) (sym same) never))

if_records :
    (a : Opened) (b : Bool) (x y : Ending)
    → AllRecorded a x
    → AllRecorded a y
    → AllRecorded a (if b then x else y)
if_records a true x y p q = p
if_records a false x y p q = q

words_record :
    (v : Invocation) (h : Home) (a : Opened) (words : List Bytes)
    → (open_app v.setting.eth (opening_in v h) h.files).0 ≡ ok a
    → NeverZero a.app.rail
    → AllRecorded a (run_words v h words)
unfolding run_words start_profile
words_record v h a [] opens never = tt
words_record v h a (name ∷ args) opens never =
    if_records a (not (valid_halt_point v.opening.halt_after)) _ _ tt (
      if_records a (eq_bytes name (codes "init")) _ _ tt (
        on_opened_records v h.disk (open_app v.setting.eth (opening_in v h) h.files) a opens never))

-- Every transaction that a call of railctl hands to the node is, when the call ends, the signed transaction of an
-- attempt on record in the store of the account that the call has opened, however it ends. No transaction is signed
-- under the hash of zeros.
pub run_records :
    (v : Invocation) (h : Home) (a : Opened)
    → (open_app v.setting.eth (opening_in v h) h.files).0 ≡ ok a
    → NeverZero a.app.rail
    → All (IsRecorded a.app.rail ((run v h).home.files a.path).tables) (run v h).sent
unfolding run
run_records v h a opens never = words_record v h a v.args opens never
