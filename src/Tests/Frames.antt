-- ===== src/Tests/Frames.antt =====
-- Runs of internal/app/ios_websocket.go and internal/asr/websocket.go.
use talka.Prelude.{◌≡◌, refl, [], ◌∷◌, ◌++◌, ok, arith}
use talka.Prelude.Mask.{mask_from}
use talka.App.Websocket.{read_frame}
use talka.App.Websocket.Laws.{length_bytes, read_frame-masked}
use talka.Prelude.Bytes.{Bytes}

read_frame-masked_example :
    read_frame (
      129
      ∷ (length_bytes 2
          ++ ((1 ∷ 2 ∷ 3 ∷ 4 ∷ []) ++ (mask_from 0 (1 ∷ 2 ∷ 3 ∷ 4 ∷ []) (5 ∷ 6 ∷ []) ++ 9 ∷ []))))
    ≡ ok (5 ∷ 6 ∷ [], (1, 9 ∷ []))
read_frame-masked_example =
    read_frame-masked 129 (1 ∷ 2 ∷ 3 ∷ 4 ∷ []) (5 ∷ 6 ∷ []) (9 ∷ []) refl
      (omega arith, (omega arith, (omega arith, (omega arith, tt))))
      (omega arith, (omega arith, tt)) (omega arith)

abbrev payload : Bytes
payload = 5 ∷ 6 ∷ []
