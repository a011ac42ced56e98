-- ===== src/Client/Receive.antt =====
-- What the chat window makes of the server's bytes, however they are cut.
use echo_net.Base.{List, Text, ap, arith, length, some, suc, ◌++◌, ◌<◌, ◌^◌, ◌∙◌, ◌≡◌}
use echo_net.Protocol.MyProtocol.Message.{Message}
use echo_net.Protocol.MyProtocol.Frames.{incomplete, spec}
use echo_net.Protocol.MyProtocol.Stream.{encode_all, AllFit}
use echo_net.Client.Qt.{Qt}
use echo_net.Client.Frames.{frame_loop, handle_all, frame_loop-encode_all}
use echo_net.Client.Window.{Window, handle_frame, with_rest, parse_packet, on_ready_read}

module _ (q : Qt) where
  -- However the bytes of the server are cut, where the received bytes, with those that were kept, are
  -- a sequence of encoded messages that each fit into a frame, and behind them the first part of a
  -- frame, less than `2 ^ 32` bytes in all, the chat window reads nothing outside of a frame, handles
  -- exactly these messages in order, and keeps that part.
  pub on_ready_read-encode_all :
      (w : Window q) (arrived : Text) (ms : List Message) (part : Text)
      → AllFit ms
      → spec part ≡ incomplete
      → length (encode_all ms ++ part) < 2 ^ 32
      → w.recv_buf ++ arrived ≡ encode_all ms ++ part
      → on_ready_read q arrived w
        ≡ some
            (record (handle_all
              (handle_frame q)
              ms
              (record w { recv_buf = w.recv_buf ++ arrived })) { recv_buf = part })
  unfolding on_ready_read parse_packet with_rest
  on_ready_read-encode_all w arrived ms part fit e h k =
      let v : Window q = record w { recv_buf = w.recv_buf ++ arrived } in
      ap (λ t. with_rest q (frame_loop (handle_frame q) (suc (length t)) t v)) k
      ∙ ap (with_rest q) (
          frame_loop-encode_all (handle_frame q) ms part (suc (length (encode_all ms ++ part))) v
            fit e (omega arith) h)
