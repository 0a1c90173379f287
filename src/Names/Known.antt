-- ===== src/Names/Known.antt =====
-- app/pii.py: the table `KNOWN_PERSONS`.
use privy_gate.Common.{List, [], ◌∷◌, Text, codes}

abbrev pub known_persons : List Text
known_persons =
    codes "александр сергеевич пушкин"
    ∷ codes "лев николаевич толстой"
    ∷ codes "фёдор михайлович достоевский"
    ∷ codes "антон павлович чехов"
    ∷ codes "михаил юрьевич лермонтов"
    ∷ codes "николай васильевич гоголь"
    ∷ codes "сергей александрович есенин"
    ∷ codes "владимир владимирович маяковский"
    ∷ codes "иван алексеевич бунин"
    ∷ codes "александр александрович блок"
    ∷ codes "марина ивановна цветаева"
    ∷ codes "анна андреевна ахматова"
    ∷ codes "борис леонидович пастернак"
    ∷ codes "иосиф александрович бродский"
    ∷ codes "михаил афанасьевич булгаков"
    ∷ codes "иван сергеевич тургенев"
    ∷ codes "александр сергеевич грибоедов"
    ∷ codes "николай алексеевич некрасов"
    ∷ codes "афанасий афанасьевич фет"
    ∷ codes "василий андреевич жуковский"
    ∷ codes "константин дмитриевич бальмонт"
    ∷ codes "валерий яковлевич брюсов"
    ∷ codes "андрей белый"
    ∷ codes "александр иванович куприн"
    ∷ codes "максим горький"
    ∷ codes "аркадий петрович гайдар"
    ∷ codes "самуил яковлевич маршак"
    ∷ codes "корней иванович чуковский"
    ∷ codes "алексей николаевич толстой"
    ∷ codes "михаил александрович шолохов"
    ∷ codes "александр исаевич солженицын"
    ∷ codes "василий макарович шукшин"
    ∷ codes "виктор петрович астафьев"
    ∷ codes "валентин григорьевич распутин"
    ∷ codes "юрий карлович олеша"
    ∷ codes "илья ильф"
    ∷ codes "евгений петров"
    ∷ codes "аркадий натанович стругацкий"
    ∷ codes "борис натанович стругацкий"
    ∷ codes "александр пушкин"
    ∷ codes "пушкин"
    ∷ codes "лев толстой"
    ∷ codes "толстой"
    ∷ codes "фёдор достоевский"
    ∷ codes "достоевский"
    ∷ codes "антон чехов"
    ∷ codes "чехов"
    ∷ codes "михаил лермонтов"
    ∷ codes "лермонтов"
    ∷ codes "николай гоголь"
    ∷ codes "гоголь"
    ∷ codes "сергей есенин"
    ∷ codes "есенин"
    ∷ codes "владимир маяковский"
    ∷ codes "маяковский"
    ∷ codes "иван бунин"
    ∷ codes "бунин"
    ∷ codes "александр блок"
    ∷ codes "блок"
    ∷ codes "марина цветаева"
    ∷ codes "цветаева"
    ∷ codes "анна ахматова"
    ∷ codes "ахматова"
    ∷ codes "борис пастернак"
    ∷ codes "пастернак"
    ∷ codes "иосиф бродский"
    ∷ codes "бродский"
    ∷ codes "михаил булгаков"
    ∷ codes "булгаков"
    ∷ codes "иван тургенев"
    ∷ codes "тургенев"
    ∷ codes "александр грибоедов"
    ∷ codes "грибоедов"
    ∷ codes "николай некрасов"
    ∷ codes "некрасов"
    ∷ codes "афанасий фет"
    ∷ codes "фет"
    ∷ codes "василий жуковский"
    ∷ codes "жуковский"
    ∷ codes "константин бальмонт"
    ∷ codes "бальмонт"
    ∷ codes "валерий брюсов"
    ∷ codes "брюсов"
    ∷ codes "белый"
    ∷ codes "александр куприн"
    ∷ codes "куприн"
    ∷ codes "горький"
    ∷ codes "аркадий гайдар"
    ∷ codes "гайдар"
    ∷ codes "самуил маршак"
    ∷ codes "маршак"
    ∷ codes "корней чуковский"
    ∷ codes "чуковский"
    ∷ codes "алексей толстой"
    ∷ codes "михаил шолохов"
    ∷ codes "шолохов"
    ∷ codes "александр солженицын"
    ∷ codes "солженицын"
    ∷ codes "василий шукшин"
    ∷ codes "шукшин"
    ∷ codes "виктор астафьев"
    ∷ codes "астафьев"
    ∷ codes "валентин распутин"
    ∷ codes "распутин"
    ∷ codes "юрий олеша"
    ∷ codes "олеша"
    ∷ codes "ильф"
    ∷ codes "петров"
    ∷ codes "аркадий стругацкий"
    ∷ codes "стругацкий"
    ∷ codes "борис стругацкий"
    ∷ []
