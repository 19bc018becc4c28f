-- ===== src/Tools/Escapes/Laws.antt =====
-- `unescape` on a text without `%`.
use mq_kafka.Prelude.{◌≡◌, refl, [], ◌∷◌, arith}
use mq_kafka.Text.{Text, Free}
use mq_kafka.Tools.Escapes.{unescape_from, unescape}

unescape_from_of_Free : (s : Text) → Free b'%' s → unescape_from 0 s ≡ s
unfolding unescape_from
unescape_from_of_Free [] h = refl
unescape_from_of_Free (c ∷ s) h = ground (arith, unescape_from_of_Free s)

pub unescape_of_Free : (s : Text) → Free b'%' s → unescape s ≡ s
unfolding unescape
unescape_of_Free s h = unescape_from_of_Free s h
