-- ===== src/BufPool/Tests.antt =====
-- A buffer that went through the pool, and one that grew too large for it.
use caddy_esi.Prelude.{◌≡◌, refl, List, [], ◌∷◌, ◌++◌, arith}
use caddy_esi.Prelude.Text.{codes}
use caddy_esi.BufPool.{
  Buffer, new_buffer, put, Tank, new_tank, gets_new, writes, puts, Uses, unused, then_use,
}
use caddy_esi.BufPool.Clean.{Fresh, get-Fresh}

abbrev page : Buffer
page = record { id = 0; content = codes "page"; cap = 16_384 }

abbrev large_page : Buffer
large_page = record { id = 0; content = codes "page"; cap = 262_145 }

too_large : put large_page [] ≡ []
too_large = refl

abbrev one_page : Tank
one_page = record {
  free = record { id = 0; content = []; cap = 16_384 } ∷ [];
  lent = [];
  next_id = 1;
}

used : Uses new_tank one_page
used =
    let got = then_use unused (gets_new [] [] 0) in
    let wrote =
      then_use got (writes [] [] [] (new_buffer 0) (codes "page") 16_384 1 (omega arith)) in
    then_use wrote (puts [] [] [] page 1)

get-Fresh_example :
    ((before after : List Buffer) (b : Buffer) → one_page.free ≡ before ++ b ∷ after → Fresh b [])
    × Fresh (new_buffer 1) []
get-Fresh_example = get-Fresh one_page used
