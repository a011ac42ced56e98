-- ===== src/Tests/Wire.antt =====
-- The buffer and the binary protocol at work.
use echo_net.Base.{ℕ, ◌≡◌, refl, ap, ◌∙◌, List, [], ◌∷◌, ◌++◌, arith, bytes, take}
use echo_net.Net.Buffer.{Buffer, new_buffer, buffer_append}
use echo_net.Net.Buffer.Bounds.{IsValid, new_buffer-IsValid, buffer_append-IsValid}
use echo_net.Net.Buffer.Contents.{contents, contents-buffer_append, new_buffer-contents}
use echo_net.Net.Buffer.Queue.{append, reserve, consume, run, spec_run, run_refines, Agrees}
use echo_net.Protocol.MyProtocol.Message.{
  Message, no_message, send_msg_req, heartbeat_req, encode, is_valid_msg_type, type_code,
}
use echo_net.Protocol.MyProtocol.Parse.{parse}
use echo_net.Protocol.MyProtocol.Frames.{spec, Shows, parse_refines, frame, incomplete}
use echo_net.Protocol.MyProtocol.RoundTrip.{Fits}

abbrev hello : Message
hello = record { type = send_msg_req; id = 7; payload = bytes "hi" }

abbrev ping : Message
ping = record { type = heartbeat_req; id = 8; payload = [] }

hello-Fits : Fits hello
unfolding is_valid_msg_type type_code
hello-Fits = record { small = omega arith; word = omega arith; known = refl }

ping-Fits : Fits ping
unfolding is_valid_msg_type type_code
ping-Fits = record { small = omega arith; word = omega arith; known = refl }

clash : (m : Message) (r : List ℕ) → frame m r ≡ incomplete → ⊥
clash m r e = cc

abbrev fed : Buffer
fed = buffer_append new_buffer (encode hello)

fed-IsValid : IsValid fed
fed-IsValid = buffer_append-IsValid new_buffer (encode hello) new_buffer-IsValid

new_contents : (msg : List ℕ) → contents (buffer_append new_buffer msg) ≡ msg
new_contents msg =
    contents-buffer_append new_buffer msg new_buffer-IsValid
    ∙ ap (λ q. q ++ msg) new_buffer-contents

run_refines_example :
    let os = append (1 ∷ 2 ∷ 3 ∷ []) ∷ reserve 5000 ∷ consume 2 ∷ consume 4 ∷ [] in
    Agrees (run new_buffer os) (spec_run (contents new_buffer) os)
run_refines_example =
    run_refines (append (1 ∷ 2 ∷ 3 ∷ []) ∷ reserve 5000 ∷ consume 2 ∷ consume 4 ∷ []) new_buffer
      new_buffer-IsValid

parse_refines_example :
    Shows
      (record { current = no_message })
      fed
      (parse (record { current = no_message }) fed)
      (spec (contents fed))
parse_refines_example = parse_refines (record { current = no_message }) fed fed-IsValid

-- Eleven of the twelve bytes.
abbrev partly : Buffer
partly = buffer_append new_buffer (take 11 (encode hello))
