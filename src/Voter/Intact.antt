-- ===== src/Voter/Intact.antt =====
-- The voter of src/voter_builder.cpp leaves the voters that are there intact.
use tamara.Common.{String, refl, ℕ, zero, suc, ◌+◌, Option}
use tamara.Rtlil.Kernel.{Kernel, wire, cell}
use tamara.Rtlil.Circuit.{Circuit}
use tamara.Rtlil.Gates.{Gates, Marks}
use tamara.Rtlil.Intact.{
  Keeps, Keeps-pure, Keeps-some_or, Keeps-if, Keeps-require, Keeps-bind, Keeps-then,
}
use tamara.Rtlil.Intact.Calls.{
  Keeps-next_index, Keeps-add_wire, Keeps-add_logic_not, Keeps-add_logic_and, Keeps-add_logic_or,
  Keeps-add_reduce_or, Keeps-add_buf, Keeps-connect, Keeps-mark,
}
use tamara.Util.Names.{tamara_id, voter_annotation}
use tamara.Voter.{
  make_voter_wire, make_voter_cell, voter_wire, voter_not, voter_and, voter_or, build_bit, vote_bit,
  vote_bits, reduce_errors, build, VoterBuilder,
}

module _ (k : Kernel) (s : Circuit k) (g : Gates k s) (marks : Marks k) where
  open k use {Wire, Cell, SigSpec, Module}

  pub Keeps-tamara_id : (label : String) → Keeps k s g marks (tamara_id k label)
  unfolding tamara_id
  Keeps-tamara_id label = search (Keeps-bind, Keeps-next_index, Keeps-pure)

  Keeps-make_voter_wire : (w : Wire) → Keeps k s g marks (make_voter_wire k w)
  unfolding make_voter_wire
  Keeps-make_voter_wire w =
      Keeps-then k s g marks _ _ (Keeps-mark k s g marks (wire w) voter_annotation refl)
        (Keeps-pure k s g marks w)

  pub Keeps-voter_wire : (label : String) → Keeps k s g marks (voter_wire k label)
  unfolding voter_wire
  Keeps-voter_wire label =
      search (Keeps-tamara_id, Keeps-make_voter_wire, Keeps-bind, Keeps-add_wire)

  Keeps-make_voter_cell : (c : Cell) → Keeps k s g marks (make_voter_cell k c)
  unfolding make_voter_cell
  Keeps-make_voter_cell c = Keeps-mark k s g marks (cell c) voter_annotation refl

  Keeps-voter_not : (number : String) (a y : Wire) → Keeps k s g marks (voter_not k number a y)
  unfolding voter_not
  Keeps-voter_not number a y =
      search (Keeps-tamara_id, Keeps-make_voter_cell, Keeps-bind, Keeps-add_logic_not)

  Keeps-voter_and : (number : String) (a b y : Wire) → Keeps k s g marks (voter_and k number a b y)
  unfolding voter_and
  Keeps-voter_and number a b y =
      search (Keeps-tamara_id, Keeps-make_voter_cell, Keeps-bind, Keeps-add_logic_and)

  Keeps-voter_or : (number : String) (a b y : Wire) → Keeps k s g marks (voter_or k number a b y)
  unfolding voter_or
  Keeps-voter_or number a b y =
      search (Keeps-tamara_id, Keeps-make_voter_cell, Keeps-bind, Keeps-add_logic_or)

  Keeps-build_bit : (a b c out error : Wire) → Keeps k s g marks (build_bit k a b c out error)
  unfolding build_bit
  Keeps-build_bit a b c out error =
      search
        (Keeps-voter_wire, Keeps-voter_not, Keeps-voter_and, Keeps-voter_or, Keeps-bind, Keeps-then)
        depth 40

  Keeps-vote_bit :
      (a b c out error : Wire) (i : ℕ) → Keeps k s g marks (vote_bit k a b c out error i)
  unfolding vote_bit
  Keeps-vote_bit a b c out error i =
      search (Keeps-voter_wire, Keeps-build_bit, Keeps-connect, Keeps-bind, Keeps-then) depth 30

  Keeps-vote_bits :
      (a b c out error : Wire) (i n size : ℕ)
      → Keeps k s g marks (vote_bits k a b c out error i n size)
  unfolding vote_bits
  Keeps-vote_bits a b c out error i zero size = Keeps-pure k s g marks size
  Keeps-vote_bits a b c out error i (suc n) size =
      Keeps-then k s g marks _ _ (Keeps-vote_bit a b c out error i)
        (Keeps-vote_bits a b c out error (i + 1) n (size + 1))

  Keeps-reduce_errors :
      (bits : ℕ) (errors reduced : Wire) → Keeps k s g marks (reduce_errors k bits errors reduced)
  unfolding reduce_errors
  Keeps-reduce_errors bits errors reduced = search (
    Keeps-tamara_id, Keeps-make_voter_cell, Keeps-bind, Keeps-add_reduce_or, Keeps-add_buf,
    Keeps-if,
  )

  pub Keeps-build :
      (old : VoterBuilder k) (a b c out : Option Wire) → Keeps k s g marks (build k old a b c out)
  unfolding build
  Keeps-build old a b c out =
      search
        (
          Keeps-some_or, Keeps-require, Keeps-tamara_id, Keeps-add_wire, Keeps-vote_bits,
          Keeps-voter_wire, Keeps-reduce_errors, Keeps-pure, Keeps-bind, Keeps-then,
        )
        depth 30
