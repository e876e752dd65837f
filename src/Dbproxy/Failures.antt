-- ===== src/Dbproxy/Failures.antt =====
-- What SaveGroupMsg leaves where a statement fails, and the handlers that open their session
-- outside the `try`.
use cpp_server.Prelude.{◌≡◌, refl, ap, ◌∙◌, Option, some, none, List, [], ◌∷◌, ◌++◌}
use cpp_server.CString.{codes}
use cpp_server.Dbproxy.{
  UserAndMsgId, GroupMsg, Value, Backend, returns, invalid, choose_database, run_query,
}
use cpp_server.Dbproxy.Save.{insert_member, group_row, insert_members, save_group_msg}

module _ {W : Type 0} (b : Backend W) where
  -- The statement for one member of the group.
  abbrev pub insert_one : GroupMsg → UserAndMsgId → W → Option (List (List Value)) × W
  insert_one g u w =
      run_query b (choose_database u.user_id) (record { sql = insert_member; uses = group_row g u })
        w

  -- The statements for `us` succeed one after the other, from `w` to `w'`.
  pub data Inserted (g : GroupMsg) : List UserAndMsgId → W → W → Type 0 where
    nobody : (w : W) → Inserted g [] w w
    another :
        (u : UserAndMsgId) (us : List UserAndMsgId) (rows : List (List Value)) (w w1 w2 : W)
        → insert_one g u w ≡ (some rows, w1)
        → Inserted g us w1 w2
        → Inserted g (u ∷ us) w w2

  insert_members-Inserted :
      (g : GroupMsg) (us rest : List UserAndMsgId) (w w1 : W)
      → Inserted g us w w1
      → insert_members b g (us ++ rest) w ≡ insert_members b g rest w1
  unfolding insert_members
  insert_members-Inserted g _ rest _ _ (nobody w) = refl
  insert_members-Inserted g _ rest _ _ (another u us rows w w1 w2 e i) =
      rw e (insert_members-Inserted g us rest w1 w2 i)

  -- Where the statement of one member fails, SaveGroupMsg answers EINVAL and leaves the rows of the
  -- members before it: nothing is taken back, the members behind it get no row, and redis is not told
  -- of the message. `before` goes through from `w` to `w1`, the statement of `u` leaves `w2`.
  pub save_group_msg_partial :
      (g : GroupMsg) (before : List UserAndMsgId) (u : UserAndMsgId) (behind : List UserAndMsgId)
      (w w1 w2 : W)
      → g.user_and_msgids ≡ before ++ u ∷ behind
      → Inserted g before w w1
      → insert_one g u w1 ≡ (none, w2)
      → save_group_msg b g w ≡ returns (invalid (codes "fail to insert into messgaes.")) tt w2
  unfolding save_group_msg insert_members
  save_group_msg_partial g before u behind w w1 w2 members i e =
      let stops : insert_members b g (u ∷ behind) w1 ≡ (none, w2) = rw e refl in
      let all =
        ap (λ z. insert_members b g z w) members
        ∙ insert_members-Inserted g before (u ∷ behind) w w1 i
        ∙ stops in
      rw all refl
