-- ===== src/Jmb39x/Device/Command.antt =====
-- What a command of the protocol leaves.
use smartmontools.Common.{ℕ, refl, inl, inr, true, false, Option, none, some, List, arith}
use smartmontools.Common.{take, same_bytes, u32, if-both, ◌+◌, ◌≡◌, ◌⊎◌}
use smartmontools.Jmb39x.Sector.{jmb_check_crc, jmb_xor}
use smartmontools.Jmb39x.Device.{
  Tunnel, Jmb39x, JmbError, read_failed, write_failed, Left, block, request_sector,
}
use smartmontools.Jmb39x.Device.{
  response_error, raw_read, raw_write, judged, check_response, read_response,
}
use smartmontools.Jmb39x.Device.{run_jmb_command}

-- A response that passes every check.
unfoldable pub IsAnswer : List ℕ → List ℕ → Type 0
IsAnswer request response =
    (jmb_check_crc response ≡ true)
    × (same_bytes (take 8 request) (take 8 response) ≡ true)
    × (same_bytes request response ≡ false)

response_error-IsAnswer :
    (request response : List ℕ) → response_error request response ≡ none → IsAnswer request response
unfolding response_error IsAnswer
response_error-IsAnswer request response h = grind arith

-- The result of a command: an error blocks the device and changes no other member, and a response
-- is an answer to the request, which counts the command.
unfoldable pub Answered :
    {W : Type 0} → Jmb39x → List ℕ → List ℕ → Left (JmbError ⊎ List ℕ) W → Type 0
Answered d cmd data_out r = elim r.result [
  | inl e ↦ r.dev ≡ block d
  | inr response ↦
      IsAnswer (request_sector d cmd data_out) response
      × (r.dev ≡ record d { cmd_id = u32 (d.cmd_id + 1) })
]

failed_command :
    {W : Type 0} (d : Jmb39x) (cmd data_out : List ℕ) (e : JmbError) (w : W)
    → Answered d cmd data_out (record { result = inl e; dev = block d; world = w })
unfolding Answered
failed_command d cmd data_out e w = refl

module _ {W : Type 0} (t : Tunnel W) where
  judged-Answered :
      (d : Jmb39x) (w : W) (cmd data_out response : List ℕ) (o : Option JmbError)
      → response_error (request_sector d cmd data_out) response ≡ o
      → Answered d cmd data_out (judged t d w response o)
  unfolding Answered judged
  judged-Answered d w cmd data_out response none e =
      (response_error-IsAnswer (request_sector d cmd data_out) response e, refl)
  judged-Answered d w cmd data_out response (some x) e = refl

  read_response-Answered :
      (d : Jmb39x) (w : W) (cmd data_out : List ℕ)
      → Answered d cmd data_out (read_response t d w (request_sector d cmd data_out))
  unfolding read_response check_response
  read_response-Answered d w cmd data_out =
      let ((done, response), w') = raw_read t d w in
      if-both (Answered d cmd data_out) done
        (judged-Answered d w' cmd data_out (jmb_xor response) _ refl)
        (failed_command d cmd data_out read_failed w')

  -- Every command either fails and blocks the device, or returns a response that passes the CRC
  -- check, repeats the first eight bytes of the request and differs from it, and counts the command.
  pub run_jmb_command-Answered :
      (d : Jmb39x) (w : W) (cmd data_out : List ℕ)
      → Answered d cmd data_out (run_jmb_command t d w cmd data_out)
  unfolding run_jmb_command
  run_jmb_command-Answered d w cmd data_out =
      let (done, w') = raw_write t d w (jmb_xor (request_sector d cmd data_out)) in
      if-both (Answered d cmd data_out) done (read_response-Answered d w' cmd data_out)
        (failed_command d cmd data_out write_failed w')
