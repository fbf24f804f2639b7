-- ===== src/Tests/Sweeping.antt =====
-- The fee sweep at a concrete input.
use wam_coin.Common.{[], ◌∷◌, some, true, false, replicate}
use wam_coin.Common.Int.{pos}
use wam_coin.Sweep.{Answers}
use wam_coin.Sweep.Solvent.{Books}

abbrev answers : Answers
answers = record {
  api_answers = true;
  owed = 700;
  accrued = pos 200;
  dest = 87 ∷ 49 ∷ [];
  is_valid = some true;
  is_mine = some false;
  spendable = some 900;
  floor = 100;
  send = true;
  txid = some (replicate 64 97);
  decrements = true;
}

abbrev books : Books
books = record { wallet = 900; counter = 200; paid = 50 }
