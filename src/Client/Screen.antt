-- ===== src/Client/Screen.antt =====
-- src/client/main.cpp: showCurrentUserData.
use my_chat_project.Prelude.{List, [], ◌∷◌, ◌++◌, Str, codes, to_string}
use my_chat_project.Exec.{Exec, modify}
use my_chat_project.Model.{User, GroupUser, Group}
use my_chat_project.Client.{Client, Line, text_line}

-- cout << user.getId() << " " << user.getName() << " " << user.getState()
unfoldable pub friend_text : User → Str
friend_text user = to_string user.id ++ (codes " " ++ (user.name ++ (codes " " ++ user.state)))

unfoldable pub member_text : GroupUser → Str
unfolding friend_text
member_text member = friend_text member.user ++ (codes " " ++ member.role)

unfoldable pub group_text : Group → Str
group_text group = to_string group.id ++ (codes " " ++ (group.name ++ (codes " " ++ group.desc)))

unfoldable pub friend_lines : List User → List Line
unfolding friend_text
friend_lines [] = []
friend_lines (user ∷ friends) = text_line (friend_text user) ∷ friend_lines friends

unfoldable pub member_lines : List GroupUser → List Line
unfolding member_text
member_lines [] = []
member_lines (member ∷ users) = text_line (member_text member) ∷ member_lines users

-- A group, and below it its members.
unfoldable pub group_lines : List Group → List Line
unfolding group_text member_lines
group_lines [] = []
group_lines (group ∷ groups) =
    text_line (group_text group) ∷ (member_lines group.users ++ group_lines groups)

unfoldable pub user_text : User → Str
user_text user =
    codes "current login user id: " ++ (to_string user.id ++ (codes "| name: " ++ user.name))

-- All that showCurrentUserData prints.
unfoldable pub user_data : User → List User → List Group → List Line
unfolding friend_lines group_lines user_text
user_data user friends groups =
    text_line (codes "===================login user====================")
    ∷ text_line (user_text user)
    ∷ text_line (codes "-------------------friend list-------------------")
    ∷ (friend_lines friends
        ++ (text_line (codes "-------------------group list----------------------")
            ∷ (group_lines groups
                ++ (text_line (codes "================================================") ∷ []))))

module _ {G K Q : Type 0} where
  unfoldable pub show_current_user_data : Exec (Client G K Q) (Unit {0})
  unfolding user_data
  show_current_user_data =
      modify λ s. record s { shown = s.shown ++ user_data s.current_user s.friends s.groups }
