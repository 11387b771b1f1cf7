-- ===== src/Decoder/Transfer/Control/Shape.antt =====
-- src/decoder.rs: every control transfer, with what USB allows between its stages, is brought to
-- its end by `transfer_status`.
use packetry.Base.{◌≡◌, true, false, ◌&&◌, List, [], ◌∷◌, ◌++◌, ◌==◌, ◌⊎◌, if◌then◌else◌}
use packetry.Usb.Pid.{Pid, token_in, token_out, setup, ping, eq_pid}
use packetry.Usb.Fields.{Direction, dir_in, dir_out, direction, SetupFields}
use packetry.Decoder.Transfer.{Stage}
use packetry.Decoder.Transfer.Control.{Tried, stage, goes_on, moves}

abbrev pub data_token : Direction → Pid
data_token dir_in = token_in
data_token dir_out = token_out

abbrev pub status_token : Direction → Pid
status_token dir_in = token_out
status_token dir_out = token_in

-- It was refused, or it is a split transaction that is not complete.
abbrev pub Unfinished : Tried → Type 0
Unfinished x = (x.success && x.is_complete) ≡ false

-- Before any data has moved: a try of the data stage that failed, or a PING for an OUT.
abbrev pub BeforeData : Direction → Tried → Type 0
BeforeData dir x =
    ((x.token ≡ data_token dir) × (x.success ≡ false)) ⊎ ((x.token ≡ ping) × (dir ≡ dir_out))

-- Once data has moved: the data stage may go on, and an OUT of either stage may have a PING before
-- it; or a try of the status stage that is not finished.
abbrev pub AfterData : Direction → Tried → Type 0
AfterData dir x =
    (x.token ≡ data_token dir) ⊎ ((x.token ≡ ping) ⊎ ((x.token ≡ status_token dir) × Unfinished x))

-- In a transfer without data: a try of the status stage that is not finished, or a PING for an OUT.
abbrev pub NoData : Direction → Tried → Type 0
NoData dir x = ((x.token ≡ status_token dir) × Unfinished x) ⊎ ((x.token ≡ ping) × (dir ≡ dir_in))

abbrev pub Finished : Direction → Tried → Type 0
Finished dir x = (x.token ≡ status_token dir) × (x.success ≡ true) × (x.is_complete ≡ true)

abbrev pub Each : (Tried → Type 0) → List Tried → Type 0
Each P [] = Unit
Each P (x ∷ xs) = P x × Each P xs

-- The transactions of a control transfer that follow its SETUP (USB 2.0, section 8.5.3).
pub data ControlShape (fields : SetupFields) : List Tried → Type 0 where
  without_data :
      (waits : List Tried) (last : Tried)
      → (fields.length_field == 0) ≡ true
      → Each (NoData (direction fields)) waits
      → Finished (direction fields) last
      → ControlShape fields (waits ++ (last ∷ []))
  with_data :
      (waits : List Tried) (first : Tried) (more : List Tried) (last : Tried)
      → (fields.length_field == 0) ≡ false
      → Each (BeforeData (direction fields)) waits
      → first.token ≡ data_token (direction fields)
      → first.success ≡ true
      → Each (AfterData (direction fields)) more
      → Finished (direction fields) last
      → ControlShape fields (waits ++ (first ∷ (more ++ (last ∷ []))))

-- A transaction that leaves the transfer where it was.
abbrev Passes : SetupFields → (last : Pid) → Tried → Type 0
Passes fields last x =
    (st : Stage) × (eq_pid x.token setup ≡ false)
    × (stage fields last x.token ≡ st)
    × (goes_on st x.success x.is_complete ≡ true)
    × ((if moves st x.success then x.token else last) ≡ last)
