-- ===== src/Word/Tests.antt =====
-- The byte operations on concrete words.
use i_tcp.Common.{◌≡◌, refl}
use i_tcp.Word.{h2n}

h2n_port : h2n 80 ≡ 20480
unfolding h2n
h2n_port = refl
